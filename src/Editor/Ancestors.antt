-- ===== src/Editor/Ancestors.antt =====
-- The directories above a path are shorter than the path.
use sovereign_ai.Prelude.{
  suc, ◌+◌, ◌<◌, ◌≡◌, refl, Bool, false, List, [], ◌∷◌, ◌++◌, ap, arith, inl, inr, ◌≢◌, Elem,
  length, any, map,
}
use sovereign_ai.Text.{Bytes}
use sovereign_ai.Paths.{split, join, slash}
use sovereign_ai.Paths.Segments.{join-split}
use sovereign_ai.Editor.{ancestors, proper_prefixes}

length-append : (xs ys : Bytes) → length (xs ++ ys) ≡ length xs + length ys
length-append [] ys = omega arith
length-append (x ∷ xs) ys = omega (arith, length-append xs ys)

pub any_same :
    (p q : Bytes → Bool) (l : List Bytes) → ((a : Bytes) → Elem a l → p a ≡ q a) → any p l ≡ any q l
any_same p q [] h = refl
any_same p q (a ∷ l) h = rw (h a (inl refl), any_same p q l (λ b m. h b (inr m))) refl

pub any_none :
    (p : Bytes → Bool) (l : List Bytes) → ((a : Bytes) → Elem a l → p a ≡ false) → any p l ≡ false
any_none p [] h = refl
any_none p (a ∷ l) h = rw (h a (inl refl), any_none p l (λ b m. h b (inr m))) refl

-- What a map makes of the elements of a list.
Elem-map :
    {A B : Type 0} (f : A → B) (P : B → Type 0) (xs : List A)
    → ((x : A) → Elem x xs → P (f x))
    → (b : B) → Elem b (map f xs)
    → P b
Elem-map f P [] h b m = absurd m
Elem-map f P (x ∷ xs) h b (inl e) = rw e (h x (inl refl))
Elem-map f P (x ∷ xs) h b (inr m) = Elem-map f P xs (λ y k. h y (inr k)) b m

-- A proper prefix joins to a shorter path, so no path is its own ancestor.
join_cons :
    (s : Bytes) (l : List Bytes) → length (join (s ∷ l)) < suc (length s + suc (length (join l)))
unfolding join
join_cons s [] = omega arith
join_cons s (t ∷ l) = omega (arith, length-append s (slash ∷ join (t ∷ l)))

join_shorter : (l p : List Bytes) → Elem p (proper_prefixes l) → length (join p) < length (join l)
unfolding proper_prefixes join
join_shorter [] p m = absurd m
join_shorter (s ∷ []) p m = absurd m
join_shorter (s ∷ t ∷ rest) p (inl e) =
    rw e (omega (arith, length-append s (slash ∷ join (t ∷ rest))))
join_shorter (s ∷ t ∷ rest) p (inr m) =
    Elem-map (λ x. s ∷ x) (λ x. length (join x) < length (join (s ∷ t ∷ rest)))
      (proper_prefixes (t ∷ rest))
      (λ x k. omega (
        arith,
        join_cons s x,
        join_shorter (t ∷ rest) x k,
        length-append s (slash ∷ join (t ∷ rest)),
      ))
      p m

pub ancestors_shorter : (path a : Bytes) → Elem a (ancestors path) → length a < length path
unfolding ancestors
ancestors_shorter path a m =
    Elem-map join (λ b. length b < length path) (proper_prefixes (split path))
      (λ l k. rw (join-split path) at (join_shorter (split path) l k)) a m

pub ancestor-ne : (path a : Bytes) → Elem a (ancestors path) → a ≢ path
ancestor-ne path a m e = omega (arith, ancestors_shorter path a m, ap length e)
