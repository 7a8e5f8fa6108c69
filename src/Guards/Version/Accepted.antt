-- ===== src/Guards/Version/Accepted.antt =====
-- `version_handshake` (jobs/lib/answer_service.py) fails closed.
use nautobot_proxmox.Prelude.{sym, ◌↔◌}
use mathlib.Core.Path.{subst}
use nautobot_proxmox.Prelude.{
  ◌≡◌, refl, inl, inr, false, Option, none, some, arith, Bool-cases, Option-cases, some_inj,
}
use nautobot_proxmox.Prelude.Text.{codes}
use nautobot_proxmox.Python.Value.{Value, Fields, Dict, entries, get}
use nautobot_proxmox.Python.Assoc.{lookup}
use nautobot_proxmox.Guards.Version.{
  Version, jobs_version, min_answer_service_version, parse_version, older, check_min_jobs,
  check_service, version_handshake, accepted,
}

-- The two halves state versions that accept each other.
pub record InStep (info : Dict) : Type 0 where
  pub service : Version
  pub stated : parse_version (get (codes "version") info) ≡ some service
  pub new_enough : older service min_answer_service_version ≡ false
  pub accepts :
      (v : Value)
      → lookup (codes "min_jobs_version") info ≡ some v
      → (m : Version) × (parse_version v ≡ some m) × (older jobs_version m ≡ false)

check_min_jobs-accepted :
    (o : Option Value)
    → check_min_jobs o ≡ accepted
    → (v : Value) → o ≡ some v
    → (m : Version) × (parse_version v ≡ some m) × (older jobs_version m ≡ false)
unfolding check_min_jobs
check_min_jobs-accepted none h v e = absurd (ground arith)
check_min_jobs-accepted (some w) h v e = elim (Option-cases (parse_version w)) [
  | inl n ↦ absurd (ground arith)
  | inr (m, p) ↦
      let same : w ≡ v = some_inj w v e in
      subst (λ x. (m : Version) × (parse_version x ≡ some m) × (older jobs_version m ≡ false)) same
        (m, p, ground arith)
]

accepted-check_min_jobs :
    (o : Option Value)
    → ((v : Value)
        → o ≡ some v
        → (m : Version) × (parse_version v ≡ some m) × (older jobs_version m ≡ false))
    → check_min_jobs o ≡ accepted
unfolding check_min_jobs
accepted-check_min_jobs none h = refl
accepted-check_min_jobs (some w) h = let (m, p, q) = h w refl in ground (arith, p, q)

accepted-InStep :
    (info : Value)
    → version_handshake info ≡ accepted
    → (fs : Fields) × (info ≡ Value.dict fs) × InStep (entries fs)
unfolding version_handshake check_service
accepted-InStep (Value.dict fs) h =
    elim (Option-cases (parse_version (get (codes "version") (entries fs)))) [
      | inl n ↦ absurd (ground arith)
      | inr (v, p) ↦ elim (Bool-cases (older v min_answer_service_version)) [
        | inl o ↦ absurd (ground arith)
        | inr o ↦ (
          fs,
          refl,
          record {
            service = v;
            stated = p;
            new_enough = o;
            accepts = check_min_jobs-accepted _ (ground arith);
          },
        )
      ]
    ]
accepted-InStep info h = absurd (ground arith)

InStep-accepted : (fs : Fields) → InStep (entries fs) → version_handshake (Value.dict fs) ≡ accepted
unfolding version_handshake check_service
InStep-accepted fs h = ground (
  arith,
  h.stated,
  h.new_enough,
  accepted-check_min_jobs (lookup (codes "min_jobs_version") (entries fs)) h.accepts,
)

-- The handshake accepts an answer exactly if it is a mapping whose version is readable and not older
-- than the oldest that the jobs accept, and whose oldest jobs version, where it is given, is readable and
-- not newer than the jobs'.
pub version_handshake-InStep :
    (info : Value)
    → (version_handshake info ≡ accepted)
      ↔ ((fs : Fields) × (info ≡ Value.dict fs) × InStep (entries fs))
version_handshake-InStep info = (
  accepted-InStep info,
  λ (fs, e, h). subst (λ v. version_handshake v ≡ accepted) (sym e) (InStep-accepted fs h),
)
