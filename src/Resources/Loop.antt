-- ===== src/Resources/Loop.antt =====
-- What a loop over the changes frees.
use mathlib.Core.List.{append-nil}
use archived_sweetcomb.Prelude.{
  ℕ, suc, ◌≡◌, refl, sym, Option, none, some, ◌∙◌, ap, List, [], ◌∷◌, ◌++◌,
}
use archived_sweetcomb.Outcome.{
  Outcome, returns, ◌>>=◌, IfReturns, IfReturns-each, IfReturns-bind, >>=-assoc, >>=-cong,
}
use archived_sweetcomb.Sysrepo.{SrVal, Change}
use archived_sweetcomb.Resources.{
  Resource, old_value, new_value, free_val, free_values, Exit, next, label, leave, after_round,
  freeing_loop,
}

-- The values that sysrepo allocated for the rounds from k on: of each change the old one and the new
-- one, as far as there are any.
abbrev pub present : Option SrVal → Resource → List Resource
present none r = []
present (some v) r = r ∷ []

abbrev pub all_values : ℕ → List Change → List Resource
all_values k [] = []
all_values k (c ∷ cs) =
    present c.old_val (old_value k) ++ present c.new_val (new_value k) ++ all_values (suc k) cs

free_val-present : (o : Option SrVal) (r : Resource) → free_val o r ≡ present o r
free_val-present none r = refl
free_val-present (some v) r = refl

free_values-present :
    (k : ℕ) (c : Change) (rest : List Resource)
    → free_values k c ++ rest
      ≡ present c.old_val (old_value k) ++ present c.new_val (new_value k) ++ rest
unfolding free_values
free_values-present k c rest =
    ap (λ xs. xs ++ free_val c.new_val (new_value k) ++ rest)
      (free_val-present c.old_val (old_value k))
    ∙ ap (λ xs. present c.old_val (old_value k) ++ xs ++ rest)
        (free_val-present c.new_val (new_value k))

module _ {L A E : Type 0} (round : L → Change → Outcome (Exit L A E)) where
  -- The changes whose values are to be freed when the loop goes through a list of changes, and how it
  -- ends: those of every round that goes on, that of the round that jumps to the label, and not that
  -- of the round that returns.
  pub data Visits : L → List Change → List Change → Exit L A E → Type 0 where
    ends : (l : L) → Visits l [] [] (next l)
    goes_on :
        (l l' : L) (c : Change) (cs visited : List Change) (exit : Exit L A E)
        → round l c ≡ returns (next l')
        → Visits l' cs visited exit
        → Visits l (c ∷ cs) (c ∷ visited) exit
    jumps :
        (l : L) (c : Change) (cs : List Change) (a : A)
        → round l c ≡ returns (label a)
        → Visits l (c ∷ cs) (c ∷ []) (label a)
    returns_at :
        (l : L) (c : Change) (cs : List Change) (e : E)
        → round l c ≡ returns (leave e)
        → Visits l (c ∷ cs) [] (leave e)

  -- What the loop has freed are the values of the changes that it visits.
  abbrev pub HasFreed : ℕ → L → List Change → List Resource × Exit L A E → Type 0
  HasFreed k l cs t =
      (visited : List Change) × Visits l cs visited t.1 × (t.0 ≡ all_values k visited)

  after_round-HasFreed :
      (k : ℕ) (l : L) (c : Change) (cs : List Change)
      → ((l' : L) → IfReturns (HasFreed (suc k) l' cs) (freeing_loop round (suc k) l' cs))
      → (exit : Exit L A E) → round l c ≡ returns exit
      → IfReturns
          (HasFreed k l (c ∷ cs))
          (after_round k c (λ l'. freeing_loop round (suc k) l' cs) exit)
  after_round-HasFreed k l c cs h (next l') e =
      IfReturns-bind (HasFreed (suc k) l' cs) (HasFreed k l (c ∷ cs))
        (freeing_loop round (suc k) l' cs) _ (h l')
        (λ t freed. (
          c ∷ freed.0,
          goes_on l l' c cs freed.0 t.1 e freed.1,
          free_values-present k c t.0
              ∙ ap (λ xs. present c.old_val (old_value k) ++ present c.new_val (new_value k) ++ xs)
                  freed.2,
        ))
  after_round-HasFreed k l c cs h (label a) e =
      (c ∷ [], jumps l c cs a e, sym (append-nil _) ∙ free_values-present k c [])
  after_round-HasFreed k l c cs h (leave e') e = ([], returns_at l c cs e' e, refl)

  pub freeing_loop-HasFreed :
      (k : ℕ) (l : L) (cs : List Change) → IfReturns (HasFreed k l cs) (freeing_loop round k l cs)
  unfolding freeing_loop
  freeing_loop-HasFreed k l [] = ([], ends l, refl)
  freeing_loop-HasFreed k l (c ∷ cs) =
      IfReturns-each (HasFreed k l (c ∷ cs)) (round l c) _
        (λ exit e. after_round-HasFreed k l c cs (λ l'. freeing_loop-HasFreed (suc k) l' cs) exit e)

-- What holds of every jump to the label in a round holds of the jump that ends the loop.
module _ {L A E : Type 0} (P : A → Type 0) where
  abbrev pub LabelHas : Exit L A E → Type 0
  LabelHas (next l) = Unit
  LabelHas (label a) = P a
  LabelHas (leave e) = Unit

  after_round-LabelHas :
      (k : ℕ) (c : Change) (loop : L → Outcome (List Resource × Exit L A E))
      → ((l : L) → IfReturns (λ t. LabelHas t.1) (loop l))
      → (exit : Exit L A E) → LabelHas exit
      → IfReturns (λ t. LabelHas t.1) (after_round k c loop exit)
  after_round-LabelHas k c loop h (next l) p =
      IfReturns-bind (λ t. LabelHas t.1) (λ t. LabelHas t.1) (loop l) _ (h l) (λ t q. q)
  after_round-LabelHas k c loop h (label a) p = p
  after_round-LabelHas k c loop h (leave e) p = tt

  pub freeing_loop-LabelHas :
      (round : L → Change → Outcome (Exit L A E))
      → ((l : L) (c : Change) → IfReturns LabelHas (round l c))
      → (k : ℕ) (l : L) (cs : List Change)
      → IfReturns (λ t. LabelHas t.1) (freeing_loop round k l cs)
  unfolding freeing_loop
  freeing_loop-LabelHas round h k l [] = tt
  freeing_loop-LabelHas round h k l (c ∷ cs) =
      IfReturns-bind LabelHas (λ t. LabelHas t.1) (round l c) _ (h l c)
        (λ exit p.
          after_round-LabelHas k c _ (λ l'. freeing_loop-LabelHas round h (suc k) l' cs) exit p)

module _ {L A E R : Type 0} (final : Exit L A E → Outcome R) where
  -- What follows a round in a loop that does not list what it frees.
  abbrev pub after_exit : (L → Outcome R) → Exit L A E → Outcome R
  after_exit loop (next l) = loop l
  after_exit loop (label a) = final (label a)
  after_exit loop (leave e) = final (leave e)

  -- Such a loop, with the same rounds.
  pub record IsTracedBy (loop : L → List Change → Outcome R)
      (round : L → Change → Outcome (Exit L A E)) : Type 0 where
    pub loop-nil : (l : L) → loop l [] ≡ final (next l)
    pub loop-cons :
        (l : L) (c : Change) (cs : List Change)
        → loop l (c ∷ cs) ≡ (round l c >>= after_exit (λ l'. loop l' cs))

  module _ (loop : L → List Change → Outcome R) (round : L → Change → Outcome (Exit L A E))
      (T : IsTracedBy loop round) where
    after_round-final :
        (k : ℕ) (c : Change) (cs : List Change) (traced : L → Outcome (List Resource × Exit L A E))
        → ((l : L) → loop l cs ≡ (traced l >>= λ t. final t.1))
        → (exit : Exit L A E)
        → after_exit (λ l. loop l cs) exit ≡ (after_round k c traced exit >>= λ t. final t.1)
    after_round-final k c cs traced h (next l) = h l ∙ sym (>>=-assoc (traced l) _ _)
    after_round-final k c cs traced h (label a) = refl
    after_round-final k c cs traced h (leave e) = refl

    -- The two loops end alike.
    pub loop-final :
        (k : ℕ) (l : L) (cs : List Change)
        → loop l cs ≡ (freeing_loop round k l cs >>= λ t. final t.1)
    unfolding freeing_loop
    loop-final k l [] = T.loop-nil l
    loop-final k l (c ∷ cs) =
        T.loop-cons l c cs
        ∙ >>=-cong (round l c) _ _ (after_round-final k c cs _ (λ l'. loop-final (suc k) l' cs))
        ∙ sym (>>=-assoc (round l c) _ _)
