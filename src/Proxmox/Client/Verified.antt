-- ===== src/Proxmox/Client/Verified.antt =====
-- `ensure_image` and `require_image_checksum` (jobs/lib/proxmox_client.py): no image is pulled
-- unverified.
use mathlib.Core.Path.{subst}
use nautobot_proxmox.Prelude.{
  ℕ, refl, ap, inl, inr, true, none, [], ◌∷◌, arith, Option-cases, some_inj,
}
use nautobot_proxmox.Prelude.Text.{text_eq, lstrip}
use nautobot_proxmox.Python.Value.{non_empty}
use nautobot_proxmox.Python.Result.{Result, ok_inj, err}
use nautobot_proxmox.Python.Run.{◌>>=◌, Run, and_then}
use nautobot_proxmox.Proxmox.Server.{ProxmoxClient, Server, Failure, unverified_image}
use nautobot_proxmox.Proxmox.Trace.{Trace, Within, Within-bind, here}
use nautobot_proxmox.Proxmox.Client.{
  with_checksum, or_text, pull, download_params, find_import_volume, ensure_image,
}
use nautobot_proxmox.Proxmox.Client.Requests.{find_import_volume-Within, download_url-Within}
use nautobot_proxmox.Prelude.{◌≡◌, false, Option, some, is_empty}
use nautobot_proxmox.Prelude.Text.{Text, codes, strip}
use nautobot_proxmox.Python.Value.{Value, Dict}
use nautobot_proxmox.Python.Result.{ok}
use nautobot_proxmox.Python.Assoc.{lookup}
use nautobot_proxmox.Proxmox.Server.{Method, http_post}
use nautobot_proxmox.Proxmox.Trace.{Reads}
use nautobot_proxmox.Proxmox.Client.{
  with_checksum, or_text, pull, require_image_checksum, download_path,
}

-- The node is asked to verify the pull by this checksum.
abbrev pub IsVerified : Text → Dict → Type 0
IsVerified sum params =
    (lookup (codes "checksum") params ≡ some (Value.str sum))
    × (is_empty sum ≡ false)
    × ((algorithm : Text) × (lookup (codes "checksum-algorithm") params
          ≡ some (Value.str algorithm))
        × (is_empty algorithm ≡ false))

module _ (node storage : Text) (checksum : Option Text) where
  -- Reading, or the one download with the checksum of the record, without its blanks.
  pub data Pulls : Method → Text → Dict → Type 0 where
    reading : {m : Method} {path : Text} {params : Dict} → Reads m path params → Pulls m path params
    pulling :
        {params : Dict} (given : Text)
        → checksum ≡ some given
        → IsVerified (strip given) params
        → Pulls http_post (download_path node storage) params

  reads : (m : Method) (path : Text) (params : Dict) → Reads m path params → Pulls m path params
  reads m path params h = reading h

  non_empty-full : (s v : Text) → non_empty (some s) ≡ some v → (v ≡ s) × (is_empty v ≡ false)
  non_empty-full [] v h = absurd (ground arith)
  non_empty-full (x ∷ s) v h =
      subst (λ u. (u ≡ x ∷ s) × (is_empty u ≡ false)) (some_inj _ _ h) (refl, refl)

  or_text-full : (o : Option Text) (x : ℕ) (d : Text) → is_empty (or_text o (x ∷ d)) ≡ false
  unfolding or_text
  or_text-full none x d = refl
  or_text-full (some []) x d = refl
  or_text-full (some (y ∷ s)) x d = refl

  given_of :
      (o : Option Text) (v : Text)
      → non_empty (some (strip (or_text o []))) ≡ some v
      → (given : Text) × (o ≡ some given) × (v ≡ strip given) × (is_empty v ≡ false)
  unfolding or_text strip lstrip
  given_of none v h = absurd (ground arith)
  given_of (some []) v h = absurd (ground arith)
  given_of (some (x ∷ s)) v h =
      let (same, full) = non_empty-full (strip (x ∷ s)) v h in (x ∷ s, refl, same, full)

  required :
      (algorithm : Option Text) (sum algo : Text)
      → require_image_checksum checksum algorithm ≡ ok (sum, algo)
      → ((given : Text) × (checksum ≡ some given) × (sum ≡ strip given) × (is_empty sum ≡ false))
        × (is_empty algo ≡ false)
  unfolding require_image_checksum with_checksum
  required algorithm sum algo h =
      elim (Option-cases (non_empty (some (strip (or_text checksum []))))) [
        | inl n ↦ absurd (let k = rw n at h in ground arith)
        | inr (v, e) ↦
            let pair : (
              v,
              or_text (some (strip (or_text algorithm (codes "sha256")))) (codes "sha256"),
            )
                ≡ (sum, algo) =
              ok_inj _ _ (rw e at h) in
            (
              subst
                  (λ (u : Text).
                    (given : Text) × (checksum ≡ some given)
                    × (u ≡ strip given)
                    × (is_empty u ≡ false))
                  (ap (λ (p : Text × Text). p.0) pair) (given_of checksum v e),
              subst (λ (u : Text). is_empty u ≡ false) (ap (λ (p : Text × Text). p.1) pair)
                  (or_text-full (some (strip (or_text algorithm (codes "sha256")))) b's'
                    (codes "ha256")),
            )
      ]

  refusal :
      (algorithm : Option Text) (why : Failure)
      → require_image_checksum checksum algorithm ≡ err why
      → why ≡ unverified_image
  unfolding require_image_checksum with_checksum
  refusal algorithm why h = elim (Option-cases (non_empty (some (strip (or_text checksum []))))) [
    | inl n ↦ let k = rw n at h in ground arith
    | inr (v, e) ↦ absurd (let k = rw e at h in ground arith)
  ]

  download_params-IsVerified :
      (url filename content sum algorithm : Text)
      → is_empty sum ≡ false
      → is_empty algorithm ≡ false
      → IsVerified sum (download_params url filename content (some sum) algorithm)
  unfolding download_params lookup text_eq
  download_params-IsVerified url filename content [] algorithm h k = absurd (ground arith)
  download_params-IsVerified url filename content (x ∷ s) algorithm h k =
      (refl, refl, (algorithm, refl, k))

  module _ (srv : Server) (c : ProxmoxClient) (filename url : Text) (algorithm : Option Text) where
    pull-Within :
        (sum algo : Text) (o : Option Text)
        → require_image_checksum checksum algorithm ≡ ok (sum, algo)
        → Within srv Pulls (pull srv c node storage filename url (sum, algo) o)
    unfolding pull
    pull-Within sum algo (some volid) e s = here
    pull-Within sum algo none e s =
        let ((given, p, q, full), full') = required algorithm sum algo e in
        download_url-Within srv c Pulls reads node storage url filename (codes "import") (some sum)
          algo
          (pulling given p (
            subst
              (λ (u : Text).
                IsVerified u (download_params url filename (codes "import") (some sum) algo))
              q (download_params-IsVerified url filename (codes "import") sum algo full full')))
          s

    rest : Text × Text → Run srv.State Failure Text
    rest sum = find_import_volume srv c node storage filename >>= λ volid.
        pull srv c node storage filename url sum (non_empty volid)

    -- Nothing is sent but requests that read and the one download, which carries the record's
    -- checksum without its blanks, and that is not empty.
    pub ensure_image-Pulls :
        (s : srv.State)
        → Trace srv Pulls s (ensure_image srv c node storage filename url checksum algorithm s).1
    unfolding ensure_image rest
    ensure_image-Pulls s = sums (require_image_checksum checksum algorithm) refl
      where
        sums :
            (r : Result Failure (Text × Text))
            → require_image_checksum checksum algorithm ≡ r
            → Trace srv Pulls s (and_then (r, s) rest).1
        sums (err why) e = here
        sums (ok (sum, algo)) e =
            Within-bind srv Pulls (find_import_volume srv c node storage filename)
              (λ volid. pull srv c node storage filename url (sum, algo) (non_empty volid))
              (find_import_volume-Within srv c Pulls reads node storage filename)
              (λ volid. pull-Within sum algo (non_empty volid) e) s

    -- An image whose record has no checksum, or a blank one, is refused before any request.
    pub ensure_image-refused :
        (s : srv.State)
        → ((given : Text) → checksum ≡ some given → is_empty (strip given) ≡ true)
        → ensure_image srv c node storage filename url checksum algorithm s
          ≡ (err unverified_image, s)
    unfolding ensure_image rest
    ensure_image-refused s unset = refuse (require_image_checksum checksum algorithm) refl
      where
        refuse :
            (r : Result Failure (Text × Text))
            → require_image_checksum checksum algorithm ≡ r
            → and_then (r, s) rest ≡ (err unverified_image, s)
        refuse (err why) e = rw (refusal algorithm why e)
        refuse (ok (sum, algo)) e =
            let ((given, p, q, full), full') = required algorithm sum algo e in
            absurd (let k = unset given p in ground arith)
