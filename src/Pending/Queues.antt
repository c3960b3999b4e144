-- ===== src/Pending/Queues.antt =====
-- The keys of a class of pending messages, oldest first, and how the map's operations change them.
use mathlib.Core.Path.{subst}
use live_chat_room.Prelude.{
  Bool, true, false, none, some, List, [], ◌∷◌, ◌++◌, if◌then◌else◌, same, ◌≡◌, refl, All, arith,
  eq_of_same, same_self, same_iff, Bool-cases, inl, inr, length, ◌==◌,
}
use live_chat_room.Message.Envelope.{Bytes}
use live_chat_room.Pending.{find, delete, insert, update, remove_key}

same-flip : (j k : Bytes) → same j k ≡ false → same k j ≡ false
same-flip j k h = elim (Bool-cases (same k j)) [
  | inl e ↦ let p : same j k ≡ true = rw (eq_of_same k j e) (same_self j) in cc
  | inr e ↦ e
]

pub remove_key-head : (k : Bytes) (ks : List Bytes) → remove_key k (k ∷ ks) ≡ ks
unfolding remove_key
remove_key-head k ks = rw (same_self k)

module _ {P : Type 0} where
  -- No entry has the key.
  abbrev pub IsFresh : Bytes → List (Bytes × P) → Type 0
  IsFresh k ps = All (λ e. same e.0 k ≡ false) ps

  abbrev pub IsDistinct : List (Bytes × P) → Type 0
  IsDistinct [] = Unit {0}
  IsDistinct ((k, p) ∷ ps) = IsFresh k ps × IsDistinct ps

  unfoldable pub keys_of : (P → Bool) → List (Bytes × P) → List Bytes
  keys_of c [] = []
  keys_of c ((k, p) ∷ ps) = if c p then k ∷ keys_of c ps else keys_of c ps

  pub find-fresh : (k : Bytes) (ps : List (Bytes × P)) → IsFresh k ps → find k ps ≡ none
  unfolding find
  find-fresh k [] f = refl
  find-fresh k ((j, q) ∷ ps) f = rw (f.0, find-fresh k ps f.1)

  find-apart :
      (j k : Bytes) (ps : List (Bytes × P)) {p : P}
      → IsFresh j ps
      → find k ps ≡ some p
      → same j k ≡ false
  find-apart j k ps {p} f e = elim (Bool-cases (same j k)) [
    | inl h ↦ cc (find-fresh j ps f, eq_of_same j k h)
    | inr h ↦ h
  ]

  IsFresh-delete : (k j : Bytes) (ps : List (Bytes × P)) → IsFresh k ps → IsFresh k (delete j ps)
  unfolding delete
  IsFresh-delete k j [] f = tt
  IsFresh-delete k j ((i, q) ∷ ps) f = elim (Bool-cases (same i j)) [
    | inl e ↦ rw e f.1
    | inr e ↦ rw e (f.0, IsFresh-delete k j ps f.1)
  ]

  pub IsDistinct-delete :
      (k : Bytes) (ps : List (Bytes × P)) → IsDistinct ps → IsDistinct (delete k ps)
  unfolding delete
  IsDistinct-delete k [] d = tt
  IsDistinct-delete k ((j, q) ∷ ps) d = elim (Bool-cases (same j k)) [
    | inl e ↦ rw e d.1
    | inr e ↦ rw e (IsFresh-delete j k ps d.0, IsDistinct-delete k ps d.1)
  ]

  -- A key that was deleted is gone.
  pub delete-IsFresh : (k : Bytes) (ps : List (Bytes × P)) → IsDistinct ps → IsFresh k (delete k ps)
  unfolding delete
  delete-IsFresh k [] d = tt
  delete-IsFresh k ((j, q) ∷ ps) d = elim (Bool-cases (same j k)) [
    | inl e ↦ rw e (subst (λ i. IsFresh i ps) (eq_of_same j k e) d.0)
    | inr e ↦ rw e (e, delete-IsFresh k ps d.1)
  ]

  IsFresh-insert :
      (k j : Bytes) (p : P) (ps : List (Bytes × P))
      → same j k ≡ false
      → IsFresh k ps
      → IsFresh k (insert j p ps)
  unfolding insert
  IsFresh-insert k j p [] h f = (h, tt)
  IsFresh-insert k j p ((i, q) ∷ ps) h f = elim (Bool-cases (same i j)) [
    | inl e ↦ rw e (h, f.1)
    | inr e ↦ rw e (f.0, IsFresh-insert k j p ps h f.1)
  ]

  pub IsDistinct-insert :
      (k : Bytes) (p : P) (ps : List (Bytes × P))
      → IsFresh k ps
      → IsDistinct ps
      → IsDistinct (insert k p ps)
  unfolding insert
  IsDistinct-insert k p [] f d = (tt, tt)
  IsDistinct-insert k p ((j, q) ∷ ps) f d =
      rw f.0 (IsFresh-insert j k p ps (same-flip j k f.0) d.0, IsDistinct-insert k p ps f.1 d.1)

  pub find-insert : (k : Bytes) (p : P) (ps : List (Bytes × P)) → find k (insert k p ps) ≡ some p
  unfolding find insert
  find-insert k p [] = rw (same_self k)
  find-insert k p ((j, q) ∷ ps) = elim (Bool-cases (same j k)) [
    | inl e ↦ rw (e, same_self k)
    | inr e ↦ rw (e, e) (find-insert k p ps)
  ]

  -- What an entry points to, after a change of it.
  pub find-update :
      (k : Bytes) (f : P → P) (ps : List (Bytes × P)) {p : P}
      → find k ps ≡ some p
      → find k (update k f ps) ≡ some (f p)
  unfolding find update
  find-update k f [] e = cc
  find-update k f ((j, q) ∷ ps) {p} e = ground (arith, find-update k f ps {p = p})

  IsFresh-update :
      (k j : Bytes) (f : P → P) (ps : List (Bytes × P)) → IsFresh k ps → IsFresh k (update j f ps)
  unfolding update
  IsFresh-update k j f [] h = tt
  IsFresh-update k j f ((i, q) ∷ ps) h = elim (Bool-cases (same i j)) [
    | inl e ↦ rw e h
    | inr e ↦ rw e (h.0, IsFresh-update k j f ps h.1)
  ]

  pub IsDistinct-update :
      (k : Bytes) (f : P → P) (ps : List (Bytes × P)) → IsDistinct ps → IsDistinct (update k f ps)
  unfolding update
  IsDistinct-update k f [] d = tt
  IsDistinct-update k f ((j, q) ∷ ps) d = elim (Bool-cases (same j k)) [
    | inl e ↦ rw e d
    | inr e ↦ rw e (IsFresh-update j k f ps d.0, IsDistinct-update k f ps d.1)
  ]

  -- No key is the empty string, by which the code says that there is none.
  abbrev pub IsNamed : List (Bytes × P) → Type 0
  IsNamed ps = All (λ e. (length e.0 == 0) ≡ false) ps

  pub IsNamed-delete : (k : Bytes) (ps : List (Bytes × P)) → IsNamed ps → IsNamed (delete k ps)
  unfolding delete
  IsNamed-delete k [] n = tt
  IsNamed-delete k ((j, q) ∷ ps) n = elim (Bool-cases (same j k)) [
    | inl e ↦ rw e n.1
    | inr e ↦ rw e (n.0, IsNamed-delete k ps n.1)
  ]

  pub IsNamed-insert :
      (k : Bytes) (p : P) (ps : List (Bytes × P))
      → (length k == 0) ≡ false
      → IsNamed ps
      → IsNamed (insert k p ps)
  unfolding insert
  IsNamed-insert k p [] h n = (h, tt)
  IsNamed-insert k p ((j, q) ∷ ps) h n = elim (Bool-cases (same j k)) [
    | inl e ↦ rw e (h, n.1)
    | inr e ↦ rw e (n.0, IsNamed-insert k p ps h n.1)
  ]

  pub IsNamed-update :
      (k : Bytes) (f : P → P) (ps : List (Bytes × P)) → IsNamed ps → IsNamed (update k f ps)
  unfolding update
  IsNamed-update k f [] n = tt
  IsNamed-update k f ((j, q) ∷ ps) n = elim (Bool-cases (same j k)) [
    | inl e ↦ rw e n
    | inr e ↦ rw e (n.0, IsNamed-update k f ps n.1)
  ]

  pub named-find :
      (k : Bytes) (ps : List (Bytes × P)) {p : P}
      → IsNamed ps
      → find k ps ≡ some p
      → (length k == 0) ≡ false
  unfolding find
  named-find k [] n e = cc
  named-find k ((j, q) ∷ ps) {p} n e = elim (Bool-cases (same j k)) [
    | inl h ↦ subst (λ i. (length i == 0) ≡ false) (eq_of_same j k h) n.0
    | inr h ↦ named-find k ps {p = p} n.1 (rw h at e)
  ]

  module _ (c : P → Bool) where
    pub keys_of-delete_in :
        (k : Bytes) (ps : List (Bytes × P)) (p : P)
        → find k ps ≡ some p
        → c p ≡ true
        → keys_of c (delete k ps) ≡ remove_key k (keys_of c ps)
    unfolding find delete keys_of remove_key
    keys_of-delete_in k [] p f h = cc
    keys_of-delete_in k ((j, q) ∷ ps) p f h = ground (arith, keys_of-delete_in k ps p)

    pub keys_of-delete_out :
        (k : Bytes) (ps : List (Bytes × P)) (p : P)
        → find k ps ≡ some p
        → c p ≡ false
        → keys_of c (delete k ps) ≡ keys_of c ps
    unfolding find delete keys_of
    keys_of-delete_out k [] p f h = refl
    keys_of-delete_out k ((j, q) ∷ ps) p f h = ground (arith, keys_of-delete_out k ps p)

    pub keys_of-insert :
        (k : Bytes) (p : P) (ps : List (Bytes × P))
        → IsFresh k ps
        → keys_of c (insert k p ps) ≡ keys_of c ps ++ (if c p then k ∷ [] else [])
    unfolding insert keys_of
    keys_of-insert k p [] f = ground arith
    keys_of-insert k p ((j, q) ∷ ps) f = ground (arith, keys_of-insert k p ps)

    pub remove_key-fresh :
        (k : Bytes) (ps : List (Bytes × P))
        → IsFresh k ps
        → remove_key k (keys_of c ps) ≡ keys_of c ps
    unfolding keys_of remove_key
    remove_key-fresh k [] f = refl
    remove_key-fresh k ((j, q) ∷ ps) f = ground (arith, remove_key-fresh k ps)

    -- The oldest message of a class is the one that its key finds.
    pub find-head :
        (k : Bytes) (rest : List Bytes) (ps : List (Bytes × P))
        → IsDistinct ps
        → keys_of c ps ≡ k ∷ rest
        → (p : P) × (find k ps ≡ some p) × (c p ≡ true)
    unfolding keys_of find
    find-head k rest [] d e = cc
    find-head k rest ((j, q) ∷ ps) d e = elim (Bool-cases (c q)) [
      | inl h ↦ (q, ground (arith, same_iff j k), h)
      | inr h ↦
          let e' : keys_of c ps ≡ k ∷ rest = ground arith in
          let (p, f, cp) = find-head k rest ps d.1 e' in (p, rw (find-apart j k ps d.0 f) f, cp)
    ]

    -- A change that keeps a message in its class keeps the queue.
    pub keys_of-update :
        (k : Bytes) (f : P → P) (ps : List (Bytes × P))
        → ((p : P) → c (f p) ≡ c p)
        → keys_of c (update k f ps) ≡ keys_of c ps
    unfolding keys_of update
    keys_of-update k f [] h = refl
    keys_of-update k f ((j, q) ∷ ps) h = ground (arith, keys_of-update k f ps, h q)
