-- ===== src/Client/Sync/Laws.antt =====
-- What one client records, another does.
use peerstore.Base.{
  ℕ, ◌≡◌, ◌≢◌, ◌≤◌, ◌<◌, ◌⊎◌, inl, inr, refl, sym, subst, ap, ◌∙◌, arith, String, string_eq, none,
  some, List, [], ◌∷◌, ◌++◌,
}
use peerstore.Base.{Bool, All, ltb, leb, ◌==◌, nat_eq, if◌then◌else◌, Bool-cases, true, false}
use peerstore.Base.Dict.{lookup, lookup-insert_self, lookup-insert_ne}
use peerstore.Models.Node.{Identifier}
use peerstore.Models.TransactionLog.{Operation, Entry, Entity, TransactionLog}
use peerstore.Client.Sync.{
  record_entry, with_entry, last_loop, last_entry, fetch, remove_local, keep, sync_action,
}
use peerstore.Client.Sync.{for_operation, compared}

abbrev pub AtMost : ℕ → List Entry → Type 0
AtMost t = All (λ e. e.timestamp ≤ t)

abbrev pub Among : Entry → List Entry → Type 0
Among e [] = ⊥
Among e (x ∷ xs) = (e ≡ x) ⊎ Among e xs

last_loop-later :
    (last e : Entry) (es : List Entry)
    → leb last.timestamp e.timestamp ≡ true
    → last_loop last (e ∷ es) ≡ last_loop e es
unfolding last_loop
last_loop-later last e es h = ap (λ (b : Bool). last_loop (if b then e else last) es) h

last_loop-earlier :
    (last e : Entry) (es : List Entry)
    → leb last.timestamp e.timestamp ≡ false
    → last_loop last (e ∷ es) ≡ last_loop last es
unfolding last_loop
last_loop-earlier last e es h = ap (λ (b : Bool). last_loop (if b then e else last) es) h

-- The entry `r` is `last` or one of `es`, and none of these is later.
abbrev Newest : Entry → List Entry → Entry → Type 0
Newest last es r =
    ((r ≡ last) ⊎ Among r es) × (last.timestamp ≤ r.timestamp) × AtMost r.timestamp es

past :
    (r last e : Entry) (es : List Entry) → (r ≡ last) ⊎ Among r es → (r ≡ last) ⊎ Among r (e ∷ es)
past r last e es (inl same) = inl same
past r last e es (inr found) = inr (inr found)

last_loop-Newest : (last : Entry) (es : List Entry) → Newest last es (last_loop last es)
last_loop-Newest last [] = unfold last_loop in (inl refl, omega arith, tt)
last_loop-Newest last (e ∷ es) = elim (Bool-cases (leb last.timestamp e.timestamp)) [
  | inl h ↦
      let (chosen, above, newest) = last_loop-Newest e es in
      let later : last.timestamp ≤ e.timestamp = ground arith in
      subst (Newest last (e ∷ es)) (sym (last_loop-later last e es h))
        (inr chosen, omega arith, (above, newest))
  | inr h ↦
      let (chosen, above, newest) = last_loop-Newest last es in
      let earlier : e.timestamp ≤ last.timestamp = ground arith in
      subst (Newest last (e ∷ es)) (sym (last_loop-earlier last e es h))
        (past _ last e es chosen, above, (omega arith, newest))
]

last_loop-append :
    (last e : Entry) (es : List Entry)
    → last.timestamp ≤ e.timestamp
    → AtMost e.timestamp es
    → last_loop last (es ++ e ∷ []) ≡ e
last_loop-append last e [] h hs = unfold last_loop in ground arith
last_loop-append last e (x ∷ es) h (k, hs) = elim (Bool-cases (leb last.timestamp x.timestamp)) [
  | inl c ↦ last_loop-later last x (es ++ e ∷ []) c ∙ last_loop-append x e es k hs
  | inr c ↦ last_loop-earlier last x (es ++ e ∷ []) c ∙ last_loop-append last e es h hs
]

-- The entry that the loop finds is one of the entity's, and none of them is later.
pub last_entry-newest :
    (e : Entry) (es : List Entry)
    → (m : Entry) × (last_entry (e ∷ es) ≡ some m) × Among m (e ∷ es) × AtMost m.timestamp (e ∷ es)
unfolding last_entry
last_entry-newest e es =
    let (chosen, above, newest) = last_loop-Newest e (e ∷ es) in
    (last_loop e (e ∷ es), refl, among chosen, newest)
  where
    among : {m : Entry} → (m ≡ e) ⊎ Among m (e ∷ es) → Among m (e ∷ es)
    among (inl same) = inl same
    among (inr found) = found

last_entry-append :
    (es : List Entry) (e : Entry) → AtMost e.timestamp es → last_entry (es ++ e ∷ []) ≡ some e
unfolding last_entry last_loop
last_entry-append [] e h = ground arith
last_entry-append (x ∷ es) e (k, hs) = ap some (last_loop-append x e (x ∷ es) k (k, hs))

-- With an entry for an operation as the latest of the log, against older entries of the own copy, a client
-- does what the operation asks for.
sync_action-newer :
    (v old : Entity) (e o : Entry)
    → last_entry v.entries ≡ some e
    → last_entry old.entries ≡ some o
    → o.timestamp < e.timestamp
    → sync_action v (some old) ≡ some (for_operation e.operation fetch remove_local)
unfolding sync_action
sync_action-newer v old e o h k lt =
    let newer : ltb o.timestamp e.timestamp ≡ true = ground arith in rw (h, k, newer)

sync_action-unseen :
    (v : Entity) (e : Entry) → last_entry v.entries ≡ some e → sync_action v none ≡ some fetch
unfolding sync_action
sync_action-unseen v e h = rw h

sync_action-with :
    (v old : Entity) (e o : Entry)
    → last_entry v.entries ≡ some e
    → last_entry old.entries ≡ some o
    → sync_action v (some old) ≡ some (compared o e)
unfolding sync_action
sync_action-with v old e o h k = rw (h, k)

compared-same : (e : Entry) → compared e e ≡ keep
compared-same e =
    let newer : ltb e.timestamp e.timestamp ≡ false = ground arith in
    let same : (e.timestamp == e.timestamp) ≡ true = ground arith in rw (newer, same)

pub sync_action-same :
    (v : Entity) (e : Entry) → last_entry v.entries ≡ some e → sync_action v (some v) ≡ some keep
sync_action-same v e h = sync_action-with v v e e h h ∙ ap some (compared-same e)

-- A client records an operation on a resource of the log at a time that no entry of the resource
-- exceeds. Another whose own copy has entries of it, all earlier, then fetches the resource after
-- an update and removes it after a deletion, and one that never saw the resource fetches it. Who
-- has the new entry leaves it alone, and no other resource's entity has changed.
pub record_entry-sync :
    (op : Operation) (client key : Identifier) (time : ℕ) (path : String) (tl : TransactionLog)
    (v old : Entity) (o : Entry) (es : List Entry)
    → lookup path tl ≡ some v
    → AtMost time v.entries
    → old.entries ≡ o ∷ es
    → All (λ e. e.timestamp < time) (o ∷ es)
    → (w : Entity) × (lookup path (record_entry op client time path key tl) ≡ some w)
      × (sync_action w (some old) ≡ some (for_operation op fetch remove_local))
      × (sync_action w none ≡ some fetch)
      × (sync_action w (some w) ≡ some keep)
      × ((other : String)
          → path ≢ other
          → lookup other (record_entry op client time path key tl) ≡ lookup other tl)
unfolding record_entry
record_entry-sync op client key time path tl v old o es there most copy earlier =
    let e : Entry = record { operation = op; client_id = client; timestamp = time } in
    let w = with_entry path key e (some v) in
    let newest : last_entry w.entries ≡ some e = last_entry-append v.entries e most in
    let (m, found, among, bound) = last_entry-newest o es in
    let old_last : last_entry old.entries ≡ some m = ap last_entry copy ∙ found in
    let before : m.timestamp < time = among_earlier m (o ∷ es) among earlier in
    (
      w,
      rw there (lookup-insert_self path w tl),
      sync_action-newer w old e m newest old_last before,
      sync_action-unseen w e newest,
      sync_action-same w e newest,
      λ other ne. lookup-insert_ne path other _ tl ne,
    )
  where
    among_earlier :
        (x : Entry) (xs : List Entry)
        → Among x xs
        → All (λ y. y.timestamp < time) xs
        → x.timestamp < time
    among_earlier x [] h hs = elim h [ ]
    among_earlier x (y ∷ ys) (inl same) (k, hs) = rw same k
    among_earlier x (y ∷ ys) (inr there) (k, hs) = among_earlier x ys there hs
