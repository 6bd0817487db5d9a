-- ===== src/Store/Jobs/Evolution.antt =====
-- What the operations on jobs do to a single job row: it keeps its key, its lease generation never
-- falls, it starts to run only under a new generation, and once it has ended it never changes.
use forgeci.Base.{
  ◌≤◌, ◌<◌, ◌≡◌, ◌⊎◌, inl, inr, Bool, true, false, List, [], ◌∷◌, arith, sym, subst, ◌∙◌,
  Bool-cases, update_where, if◌then◌else◌,
}
use forgeci.Store.Tables.{JobRow, is_running, is_unfinished}

pub record Evolves (j k : JobRow) : Type 0 where
  pub same_run : k.run_id ≡ j.run_id
  pub same_name : k.job_name ≡ j.job_name
  pub generation_grows : j.lease_generation ≤ k.lease_generation
  pub settled : is_unfinished j.status ≡ false → k.status ≡ j.status
  pub settled_generation : is_unfinished j.status ≡ false → k.lease_generation ≡ j.lease_generation
  pub fresh :
      is_running k.status ≡ true
      → (j.lease_generation < k.lease_generation)
        ⊎ ((is_running j.status ≡ true)
            × (k.lease_id ≡ j.lease_id)
            × (k.runner_id ≡ j.runner_id)
            × (k.lease_generation ≡ j.lease_generation))

pub Evolves-refl : (j : JobRow) → Evolves j j
Evolves-refl j = ground arith

settled_trans :
    {i j k : JobRow}
    → Evolves i j
    → Evolves j k
    → is_unfinished i.status ≡ false
    → (k.status ≡ i.status) × (k.lease_generation ≡ i.lease_generation)
settled_trans a b h =
    let s = a.settled h in
    let e = subst (λ x. is_unfinished x ≡ false) (sym s) h in
    (b.settled e ∙ s, b.settled_generation e ∙ a.settled_generation h)

fresh_trans :
    {i j k : JobRow}
    → Evolves i j
    → Evolves j k
    → is_running k.status ≡ true
    → (i.lease_generation < k.lease_generation)
      ⊎ ((is_running i.status ≡ true)
          × (k.lease_id ≡ i.lease_id)
          × (k.runner_id ≡ i.runner_id)
          × (k.lease_generation ≡ i.lease_generation))
fresh_trans a b h = elim (b.fresh h) [
  | inl up ↦ inl (omega arith)
  | inr (r, l, n, g) ↦ elim (a.fresh r) [
    | inl up ↦ inl (omega arith)
    | inr (r', l', n', g') ↦ inr (r', l ∙ l', n ∙ n', g ∙ g')
  ]
]

pub Evolves-trans : {i j k : JobRow} → Evolves i j → Evolves j k → Evolves i k
Evolves-trans a b = record {
  same_run = b.same_run ∙ a.same_run;
  same_name = b.same_name ∙ a.same_name;
  generation_grows = omega arith;
  settled = λ h. (settled_trans a b h).0;
  settled_generation = λ h. (settled_trans a b h).1;
  fresh = fresh_trans a b;
}

-- Row by row, with no row added or dropped.
abbrev pub AllEvolve : List JobRow → List JobRow → Type 0
AllEvolve [] [] = Unit
AllEvolve [] (_ ∷ _) = ⊥
AllEvolve (_ ∷ _) [] = ⊥
AllEvolve (j ∷ js) (k ∷ ks) = Evolves j k × AllEvolve js ks

pub AllEvolve-refl : (js : List JobRow) → AllEvolve js js
AllEvolve-refl [] = tt
AllEvolve-refl (j ∷ js) = (Evolves-refl j, AllEvolve-refl js)

pub AllEvolve-trans : (is js ks : List JobRow) → AllEvolve is js → AllEvolve js ks → AllEvolve is ks
AllEvolve-trans [] [] [] a b = tt
AllEvolve-trans [] [] (k ∷ ks) a b = elim b [ ]
AllEvolve-trans [] (j ∷ js) ks a b = elim a [ ]
AllEvolve-trans (i ∷ is) [] ks a b = elim a [ ]
AllEvolve-trans (i ∷ is) (j ∷ js) [] a b = elim b [ ]
AllEvolve-trans (i ∷ is) (j ∷ js) (k ∷ ks) a b =
    (Evolves-trans a.0 b.0, AllEvolve-trans is js ks a.1 b.1)

-- An UPDATE whose new row evolves from each row that it meets.
pub AllEvolve-update :
    (p : JobRow → Bool) (f : JobRow → JobRow)
    → ((j : JobRow) → p j ≡ true → Evolves j (f j))
    → (js : List JobRow) → AllEvolve js (update_where p f js)
unfolding update_where
AllEvolve-update p f h [] = tt
AllEvolve-update p f h (j ∷ js) = (one (Bool-cases (p j)), AllEvolve-update p f h js)
  where
    one : (p j ≡ true) ⊎ (p j ≡ false) → Evolves j (if p j then f j else j)
    one (inl e) = rw e (h j e)
    one (inr e) = rw e (Evolves-refl j)
