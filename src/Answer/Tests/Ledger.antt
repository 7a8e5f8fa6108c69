-- ===== src/Answer/Tests/Ledger.antt =====
-- The key file of bmc/answer_service/app.py against the table that drops nothing, on a run of a clock.
use nautobot_proxmox.Answer.Keys.{run_op}
use nautobot_proxmox.Answer.Keys.Ledger.{InOrder}
use nautobot_proxmox.Prelude.{◌≡◌, refl, true, false, none, List, [], ◌∷◌, arith}
use nautobot_proxmox.Prelude.Text.{codes, text_eq}
use nautobot_proxmox.Python.Assoc.{lookup}
use nautobot_proxmox.Python.Dict.{IsDict}
use nautobot_proxmox.Answer.Keys.{load_keys, Op, issue, consume, peek}
use nautobot_proxmox.Answer.Keys.Ledger.{answers, ledger_answers}
use nautobot_proxmox.Answer.Keys.Ledger.Refines.{answers-ledger}

abbrev clocked_ops : List (Op 600 60)
clocked_ops =
    issue (codes "k1") (codes "S1") (codes "firstboot") 100 101
    ∷ consume (codes "k1") (codes "S2") (codes "firstboot") 110 110
    ∷ peek (codes "k1") (codes "S1") (codes "firstboot") 150
    ∷ issue (codes "k2") (codes "S1") (codes "credentials") 800 800
    ∷ peek (codes "k1") (codes "S1") (codes "firstboot") 800
    ∷ consume (codes "k2") (codes "S1") (codes "credentials") 810 811
    ∷ consume (codes "k2") (codes "S1") (codes "credentials") 812 812
    ∷ []

clocked_answers :
    answers 600 60 clocked_ops none ≡ true ∷ false ∷ true ∷ true ∷ false ∷ true ∷ false ∷ []
unfolding answers text_eq run_op
clocked_answers = refl

no_keys : IsDict (load_keys none)
unfolding load_keys
no_keys = tt

clocked_ops-InOrder : InOrder 600 60 100 clocked_ops
clocked_ops-InOrder = (
  omega arith,
  omega arith,
  (
    omega arith,
    omega arith,
    (
      omega arith,
      omega arith,
      (
        omega arith,
        omega arith,
        (omega arith, omega arith, (omega arith, omega arith, (omega arith, omega arith, tt))),
      ),
    ),
  ),
)

answers-ledger_example :
    answers 600 60 clocked_ops none
    ≡ ledger_answers 600 60 clocked_ops (λ key. lookup key (load_keys none))
answers-ledger_example = answers-ledger 600 60 100 clocked_ops none no_keys clocked_ops-InOrder
