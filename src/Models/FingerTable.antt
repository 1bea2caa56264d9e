-- ===== src/Models/FingerTable.antt =====
-- The finger table of models.go. Its lock makes each operation run alone.
pub mod Laws
use peerstore.Base.{ℕ, ◌-◌, ◌≡◌, ltb, ◌||◌, if◌then◌else◌, List, length, replicate, get_elem?, set}
use peerstore.Base.{Option, none, some}
use peerstore.Base.Result.{Error, new, Result, ok, err}
use peerstore.Models.Node.{Node, zero_node, table_size, key_to_id}

pub record Interval : Type 0 where
  pub low : ℕ
  pub high : ℕ

unfoldable pub new_interval : Node → Node → Interval
new_interval start end = record { low = key_to_id start.id; high = key_to_id end.id }

pub record Finger : Type 0 where
  pub i : ℕ
  pub interval : Interval
  pub successor : Node

-- `Finger{}`
abbrev pub zero_finger : Finger
zero_finger = record { i = 0; interval = record { low = 0; high = 0 }; successor = zero_node }

-- The array `[M]Finger`: the list has `table_size` entries where `IsTable` holds.
pub record FingerTable : Type 0 where
  pub table : List Finger

abbrev pub IsTable : FingerTable → Type 0
IsTable ft = length ft.table ≡ 160

unfoldable pub new_finger_table : FingerTable
new_finger_table = record { table = replicate table_size zero_finger }

abbrev pub range_error : Error
range_error = new "i'th entry of finger table must be between 1 and 160"

-- An index that passes the guard lies in the array.
abbrev entry_or : Option Finger → Result Finger
entry_or none = err range_error
entry_or (some f) = ok f

unfoldable pub get_ith : FingerTable → ℕ → Result Finger
get_ith ft i =
    if ltb i 1 || ltb table_size i then err range_error else entry_or (get_elem? ft.table (i - 1))

unfoldable pub set_ith : FingerTable → ℕ → Interval → Node → Node → Result FingerTable
set_ith ft i interval successor self =
    if ltb i 1 || ltb table_size i
    then err range_error
    else ok (record {
      table =
          set ft.table (i - 1)
            (record { i = key_to_id self.id; interval = interval; successor = successor });
    })
