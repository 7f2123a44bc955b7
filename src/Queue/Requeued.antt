-- ===== src/Queue/Requeued.antt =====
-- The list of requeued keys: processItem keeps it free of repetitions and true to what failed last.
use semaphore_xds.Queue.{
  settle, process_key, forget, process_item, requeue, Queue, Reconcile, WorkQueue, remove_requeued,
  add_requeued,
}
use semaphore_xds.Prelude.{
  String, subst, ◌≡◌, ◌≢◌, refl, sym, ◌∙◌, Bool, true, false, not, ◌||◌, some, List, [], ◌∷◌, ◌++◌,
  All, All-append, contains, Bool-cases, inl, inr, if◌then◌else◌, ◌==◌, string_eq, eq_of_beq,
  ne_of_beq, beq_of_ne,
}

-- No key stands in the list twice.
abbrev pub NoRepeats : List String → Type 0
NoRepeats [] = Unit
NoRepeats (k ∷ ks) = All (λ j. j ≢ k) ks × NoRepeats ks

or-false : (b : Bool) → (b || false) ≡ b
or-false true = refl
or-false false = refl

or_assoc : (a b c : Bool) → ((a || b) || c) ≡ (a || (b || c))
or_assoc true b c = refl
or_assoc false b c = refl

or_split : (a b : Bool) → (a || b) ≡ false → (a ≡ false) × (b ≡ false)
or_split true b h = cc
or_split false b h = (refl, h)

or_if : (a b : Bool) → (a || b) ≡ (if b then true else a)
or_if true true = refl
or_if true false = refl
or_if false true = refl
or_if false false = refl

contains-append :
    (ks : List String) (key j : String) → contains (ks ++ key ∷ []) j ≡ (contains ks j || j == key)
contains-append [] key j = or-false (j == key)
contains-append (k ∷ ks) key j = rw (contains-append ks key j) (sym (or_assoc (j == k) _ _))

absent : (ks : List String) (key : String) → All (λ j. j ≢ key) ks → contains ks key ≡ false
absent [] key h = refl
absent (k ∷ ks) key h = rw (beq_of_ne key k (λ e. h.0 (sym e)), contains) (absent ks key h.1)

absent-All : (ks : List String) (key : String) → contains ks key ≡ false → All (λ j. j ≢ key) ks
absent-All [] key h = tt
absent-All (k ∷ ks) key h =
    let (e, h') = or_split (key == k) (contains ks key) h in
    (λ q. ne_of_beq key k e (sym q), absent-All ks key h')

NoRepeats-append :
    (ks : List String) (key : String)
    → NoRepeats ks
    → contains ks key ≡ false
    → NoRepeats (ks ++ key ∷ [])
NoRepeats-append [] key h f = (tt, tt)
NoRepeats-append (k ∷ ks) key h f =
    let (e, f') = or_split (key == k) (contains ks key) f in
    (All-append _ ks (key ∷ []) h.0 (ne_of_beq key k e, tt), NoRepeats-append ks key h.1 f')

-- What add_requeued and remove_requeued do to the list.
add_requeued_lem :
    (key : String) (ks : List String)
    → NoRepeats ks
    → NoRepeats (add_requeued key ks)
      × ((j : String)
          → contains (add_requeued key ks) j ≡ (if j == key then true else contains ks j))
unfolding add_requeued
add_requeued_lem key ks h = elim (Bool-cases (contains ks key)) [
  | inl e ↦ rw e (
    h,
    λ j. elim (Bool-cases (j == key)) [
      | inl q ↦ rw (q, eq_of_beq j key q, e) refl
      | inr q ↦ rw q refl
    ],
  )
  | inr e ↦ rw e (
    NoRepeats-append ks key h e,
    λ j. contains-append ks key j ∙ or_if (contains ks j) (j == key),
  )
]

All-remove :
    (P : String → Type 0) (key : String) (ks : List String)
    → All P ks
    → All P (remove_requeued key ks)
unfolding remove_requeued
All-remove P key [] h = tt
All-remove P key (k ∷ ks) h = elim (Bool-cases (k == key)) [
  | inl e ↦ rw e h.1
  | inr e ↦ rw e (h.0, All-remove P key ks h.1)
]

remove_requeued_lem :
    (key : String) (ks : List String)
    → NoRepeats ks
    → NoRepeats (remove_requeued key ks)
      × ((j : String)
          → contains (remove_requeued key ks) j ≡ (if j == key then false else contains ks j))
unfolding remove_requeued
remove_requeued_lem key [] h =
    (tt, λ j. elim (Bool-cases (j == key)) [ inl e ↦ rw e refl | inr e ↦ rw e refl ])
remove_requeued_lem key (k ∷ ks) h = elim (Bool-cases (k == key)) [
  | inl e ↦ rw e (
    h.1,
    λ j. elim (Bool-cases (j == key)) [
      | inl q ↦
          rw (q, eq_of_beq j key q)
            (absent ks key (subst (λ x. All (λ y. y ≢ x) ks) (eq_of_beq k key e) h.0))
      | inr q ↦ rw (eq_of_beq k key e, q) refl
    ],
  )
  | inr e ↦
      let (rest, found) = remove_requeued_lem key ks h.1 in
      rw e (
        (All-remove _ key ks h.0, rest),
        λ j. elim (Bool-cases (j == key)) [
          | inl q ↦
              rw (found j, q, eq_of_beq j key q)
                (rw (beq_of_ne key k (λ r. ne_of_beq k key e (sym r))) refl)
          | inr q ↦ rw (found j, q) refl
        ],
      )
]

settle-requeued :
    {wq : WorkQueue} (q : Queue wq) (key : String) (is_nil : Bool)
    → NoRepeats q.requeued
    → NoRepeats (settle q key is_nil).requeued
      × ((j : String)
          → contains (settle q key is_nil).requeued j
            ≡ (if j == key then not is_nil else contains q.requeued j))
unfolding requeue forget
settle-requeued q key true h = remove_requeued_lem key q.requeued h
settle-requeued q key false h = add_requeued_lem key q.requeued h

module _ {wq : WorkQueue} {State : Type 0} (reconcile : Reconcile State) (state : State)
    (q : Queue wq) (key namespace name : String) (items : wq.Items) where
  -- If the queue gives a key that can be split, and the list of requeued keys has no repetitions,
  -- then after the item is processed the list has none, the key is in it exactly if the
  -- reconciliation failed, and every other key is in it exactly if it was before.
  pub process_item-requeued :
      NoRepeats q.requeued
      → wq.get_next q.items ≡ some (key, items)
      → wq.split_key key ≡ some (namespace, name)
      → NoRepeats (process_item reconcile state q).1.requeued
        × ((j : String)
            → contains (process_item reconcile state q).1.requeued j ≡ (
                if j == key then not (reconcile state name namespace).1 else contains q.requeued j))
  unfolding process_item process_key
  process_item-requeued h next split =
      rw (next, process_item, split, process_key)
        (settle-requeued (record q { items = items }) key (reconcile state name namespace).1 h)
