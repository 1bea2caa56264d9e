-- ===== src/Models/FingerTable/Laws.antt =====
-- Reads and writes of the finger table.
use peerstore.Base.{
  ℕ, zero, suc, ◌-◌, ◌≤◌, ◌<◌, ◌≡◌, ◌≢◌, refl, ◌∙◌, ◌⊎◌, arith, set, length-set, length-replicate,
}
use peerstore.Base.{get_elem?-set_self, get_elem?-set_ne, get_elem?-in_range}
use peerstore.Base.Result.{ok, err}
use peerstore.Models.Node.{Node, key_to_id}
use peerstore.Models.FingerTable.{Finger, FingerTable, Interval, IsTable, new_finger_table}
use peerstore.Models.FingerTable.{get_ith, set_ith, range_error, zero_finger}

pub new_finger_table-IsTable : IsTable new_finger_table
unfolding new_finger_table
new_finger_table-IsTable = length-replicate 160 zero_finger

pub get_ith-total :
    (ft : FingerTable) (i : ℕ) → IsTable ft → 1 ≤ i → i ≤ 160 → (f : Finger) × (get_ith ft i ≡ ok f)
unfolding get_ith
get_ith-total ft i t h k =
    let (f, e) = get_elem?-in_range ft.table (i - 1) (omega arith) in (f, ground (arith, e))

abbrev entry : Interval → Node → Node → Finger
entry interval successor self = record {
  i = key_to_id self.id;
  interval = interval;
  successor = successor;
}

module _ (ft : FingerTable) (i : ℕ) (f : Finger) where
  abbrev written : FingerTable
  written = record { table = set ft.table (i - 1) f }

  get_ith-written : IsTable ft → 1 ≤ i → i ≤ 160 → get_ith written i ≡ ok f
  unfolding get_ith
  get_ith-written t h k = ground (arith, get_elem?-set_self ft.table (i - 1) f (omega arith))

  get_ith-written_ne : (j : ℕ) → 1 ≤ i → j ≢ i → get_ith written j ≡ get_ith ft j
  unfolding get_ith
  get_ith-written_ne zero h n = refl
  get_ith-written_ne (suc j) h n =
      let ne : i - 1 ≢ suc j - 1 = omega arith in rw (get_elem?-set_ne ft.table f ne)

-- In range, a write succeeds: the entry is read back, every other entry is as it was, and the table
-- keeps its size.
pub get_ith-set_ith :
    (ft : FingerTable) (i : ℕ) (interval : Interval) (successor self : Node)
    → IsTable ft
    → 1 ≤ i
    → i ≤ 160
    → (ft' : FingerTable) × (set_ith ft i interval successor self ≡ ok ft')
      × (get_ith ft' i
          ≡ ok (record { i = key_to_id self.id; interval = interval; successor = successor }))
      × ((j : ℕ) → j ≢ i → get_ith ft' j ≡ get_ith ft j)
      × IsTable ft'
unfolding set_ith
get_ith-set_ith ft i interval successor self t h k =
    let f = entry interval successor self in
    (
      written ft i f,
      ground arith,
      get_ith-written ft i f t h k,
      λ j n. get_ith-written_ne ft i f j h n,
      length-set ft.table (i - 1) f ∙ t,
    )

-- Out of range, a read and a write answer the same error.
pub set_ith-out_of_range :
    (ft : FingerTable) (i : ℕ) (interval : Interval) (successor self : Node)
    → (i < 1) ⊎ (160 < i)
    → (get_ith ft i ≡ err range_error) × (set_ith ft i interval successor self ≡ err range_error)
unfolding get_ith set_ith
set_ith-out_of_range ft i interval successor self h = ground arith
