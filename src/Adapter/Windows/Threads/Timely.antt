-- ===== src/Adapter/Windows/Threads/Timely.antt =====
-- When the callbacks of the threads count.
use winluks.Base.{ℕ, ◌≡◌, inl, inr, ap, List, [], ◌∷◌, ◌++◌, ◌==◌}
use winluks.Base.{Bool-cases}
use winluks.Adapter.Windows.Reach.{Event}
use winluks.Adapter.Windows.Threads.{Pc, idle, invoked, waiting, failed, replied, update}

-- The history has gone on from the earlier one.
abbrev pub Extends : List Event → List Event → Type 0
Extends history from = (newer : List Event) × (history ≡ newer ++ from)

-- The event has come after the earlier history.
abbrev pub Since : List Event → List Event → Event → Type 0
Since history from e =
    (newer : List Event) × (between : List Event) × (history ≡ newer ++ (e ∷ (between ++ from)))

-- A callback counts between its call and its reply.
abbrev pub IsTimely : List Event → Pc → Type 0
IsTimely history idle = Unit
IsTimely history (invoked c from) = Extends history from
IsTimely history (waiting c from) = Extends history from
IsTimely history (failed e from) = Since history from e
IsTimely history (replied e from) = Since history from e

pub Extends-cons :
    {history from : List Event} (e : Event) → Extends history from → Extends (e ∷ history) from
Extends-cons e (newer, q) = (e ∷ newer, ap (λ h. e ∷ h) q)

Since-cons :
    {history from : List Event} (d e : Event) → Since history from e → Since (d ∷ history) from e
Since-cons d e (newer, between, q) = (d ∷ newer, between, ap (λ h. d ∷ h) q)

pub Since-now :
    {history from : List Event} (e : Event) → Extends history from → Since (e ∷ history) from e
Since-now e (newer, q) = ([], newer, ap (λ h. e ∷ h) q)

pub IsTimely-cons :
    (history : List Event) (e : Event) (p : Pc) → IsTimely history p → IsTimely (e ∷ history) p
IsTimely-cons history e idle t = tt
IsTimely-cons history e (invoked c from) t = Extends-cons e t
IsTimely-cons history e (waiting c from) t = Extends-cons e t
IsTimely-cons history e (failed d from) t = Since-cons e d t
IsTimely-cons history e (replied d from) t = Since-cons e d t

-- One thread has moved, and the others stay timely.
pub IsTimely-update :
    (history : List Event) (f : ℕ → Pc) (i : ℕ) (p : Pc)
    → IsTimely history p
    → ((j : ℕ) → IsTimely history (f j))
    → (j : ℕ) → IsTimely history (update f i p j)
IsTimely-update history f i p t all j = elim (Bool-cases (i == j)) [
  | inl same ↦ rw same t
  | inr other ↦ rw other (all j)
]
