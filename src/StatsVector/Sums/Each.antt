-- ===== src/StatsVector/Sums/Each.antt =====
-- add and count_active of StatsVector of src/field.cc over several vectors.
use topy.Prelude.{
  ℕ, ◌+◌, ◌%◌, ◌^◌, ◌≡◌, sym, ap, ◌∙◌, arith, ℤ, pos, negsuc, ◌+ℤ◌, residue, to_int32, wrap32, List,
  [], ◌∷◌,
}
use topy.StatsVector.{StatsVector, uint32_t, uint64_t, get_sample, add, count_active}
use topy.StatsVector.Sums.{
  wrap32-get_sample, plus_zero, get_sample-add, get_sample-count_active, active, grow_to_at,
}

pub residue_sum :
    (a b : ℤ) → residue (2 ^ 32) (a +ℤ b) ≡ (residue (2 ^ 32) a + residue (2 ^ 32) b) % 2 ^ 32
unfolding ◌+ℤ◌
residue_sum (pos a) (pos b) = ground arith
residue_sum (pos a) (negsuc b) = ground arith
residue_sum (negsuc a) (pos b) = ground arith
residue_sum (negsuc a) (negsuc b) = ground arith

residue-wrap32 : (z : ℤ) → residue (2 ^ 32) (wrap32 z) ≡ residue (2 ^ 32) z
residue-wrap32 (pos n) = ground arith
residue-wrap32 (negsuc n) = ground arith

-- A sum may be cut to an int in between.
wrap32_carried : (a b c : ℤ) → wrap32 (wrap32 (a +ℤ b) +ℤ c) ≡ wrap32 (a +ℤ (b +ℤ c))
wrap32_carried a b c = ap to_int32 (
    residue_sum (wrap32 (a +ℤ b)) c
    ∙ ap (λ (n : ℕ). (n + residue (2 ^ 32) c) % 2 ^ 32) (residue-wrap32 (a +ℤ b) ∙ residue_sum a b)
    ∙ mod_sum (residue (2 ^ 32) a) (residue (2 ^ 32) b) (residue (2 ^ 32) c)
    ∙ sym (ap (λ (n : ℕ). (residue (2 ^ 32) a + n) % 2 ^ 32) (residue_sum b c))
    ∙ sym (residue_sum a (b +ℤ c)))
  where
    mod_sum : (a b c : ℕ) → ((a + b) % 2 ^ 32 + c) % 2 ^ 32 ≡ (a + (b + c) % 2 ^ 32) % 2 ^ 32
    mod_sum a b c = omega arith

-- Several vectors, added one after the other, and the sum of their samples.
unfoldable pub add_each : StatsVector → List StatsVector → StatsVector
add_each v [] = v
add_each v (src ∷ l) = add_each (add v src) l

unfoldable pub count_each : StatsVector → List StatsVector → StatsVector
count_each v [] = v
count_each v (src ∷ l) = count_each (count_active v src) l

abbrev pub sum_of : {A : Type 0} → (A → ℤ) → List A → ℤ
sum_of f [] = pos 0
sum_of f (x ∷ l) = f x +ℤ sum_of f l

abbrev pub sample_at : ℕ → StatsVector → ℤ
sample_at i v = get_sample v i

abbrev pub active_at : ℕ → StatsVector → ℤ
active_at i v = active v i

type_s-add : (v src : StatsVector) → (add v src).type_s ≡ v.type_s
unfolding add
type_s-add v src = (grow_to_at v src.count 0).1

type_s-count_active : (v src : StatsVector) → (count_active v src).type_s ≡ v.type_s
unfolding count_active
type_s-count_active v src = (grow_to_at v src.count 0).1

pub get_sample-add_each :
    (v : StatsVector) (l : List StatsVector) (i : ℕ)
    → v.type_s ≡ uint64_t
    → get_sample (add_each v l) i ≡ wrap32 (get_sample v i +ℤ sum_of (sample_at i) l)
unfolding add_each
get_sample-add_each v [] i long =
    sym (wrap32-get_sample v i) ∙ ap wrap32 (sym (plus_zero (get_sample v i)))
get_sample-add_each v (src ∷ l) i long =
    get_sample-add_each (add v src) l i (type_s-add v src ∙ long)
    ∙ ap (λ (x : ℤ). wrap32 (x +ℤ sum_of (sample_at i) l)) (get_sample-add v src i long)
    ∙ wrap32_carried (get_sample v i) (get_sample src i) (sum_of (sample_at i) l)

pub get_sample-count_each :
    (v : StatsVector) (l : List StatsVector) (i : ℕ)
    → v.type_s ≡ uint32_t
    → get_sample (count_each v l) i ≡ wrap32 (get_sample v i +ℤ sum_of (active_at i) l)
unfolding count_each
get_sample-count_each v [] i wide =
    sym (wrap32-get_sample v i) ∙ ap wrap32 (sym (plus_zero (get_sample v i)))
get_sample-count_each v (src ∷ l) i wide =
    get_sample-count_each (count_active v src) l i (type_s-count_active v src ∙ wide)
    ∙ ap (λ (x : ℤ). wrap32 (x +ℤ sum_of (active_at i) l)) (get_sample-count_active v src i wide)
    ∙ wrap32_carried (get_sample v i) (active src i) (sum_of (active_at i) l)
