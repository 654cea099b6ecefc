-- ===== src/Peek/Backward.antt =====
-- The backward read of `reverse` and `reverse_with_nums` in c-shell/src/peek.c, in buffers of 1024
-- bytes, is one pass over the file from its end.
use c_shell.Base.{
  ◌>>=◌, fun_ext, ℕ, zero, suc, ◌-◌, ◌≤◌, ◌≡◌, refl, sym, ap, ◌∙◌, [], ◌∷◌, ◌++◌, Option, some,
  none, take, drop, reverse, length, append_assoc, append-nil, Bytes, Option-cases, inl, inr, arith,
}
use c_shell.Peek.{
  Scan, buffer_size, buffer_back, reverse_byte, reverse_bytes, reverse_loop, NumberedScan,
  numbered_byte, numbered_bytes, numbered_loop,
}

reverse-append : (xs ys : Bytes) → reverse (xs ++ ys) ≡ reverse ys ++ reverse xs
reverse-append [] ys = sym (append-nil (reverse ys))
reverse-append (x ∷ xs) ys =
    ap (λ zs. zs ++ x ∷ []) (reverse-append xs ys) ∙ append_assoc (reverse ys) (reverse xs) (x ∷ [])

take-nil : (n : ℕ) → take {A = ℕ} n [] ≡ []
take-nil zero = refl
take-nil (suc n) = refl

take-split : (m n : ℕ) (bs : Bytes) → m ≤ n → take n bs ≡ take m bs ++ take (n - m) (drop m bs)
take-split zero n bs h = let all : n ≡ n - 0 = omega arith in ap (λ k. take k bs) all
take-split (suc m) zero bs h = absurd (omega arith)
take-split (suc m) (suc n) [] h = sym (take-nil (suc n - suc m))
take-split (suc m) (suc n) (b ∷ bs) h =
    let less : n - m ≡ suc n - suc m = omega arith in
    ap (◌∷◌ b)
      (take-split m n bs (omega (arith, h)) ∙ ap (λ k. take m bs ++ take k (drop m bs)) less)

pub take-all : (bs : Bytes) → take (length bs) bs ≡ bs
take-all [] = refl
take-all (b ∷ bs) = ap (◌∷◌ b) (take-all bs)

-- A buffer, and what stands before it.
buffers :
    (file : Bytes) (start end : ℕ)
    → start ≤ end
    → reverse (take end file) ≡ buffer_back file start end ++ reverse (take start file)
buffers file start end h =
    ap reverse (take-split start end file h)
    ∙ reverse-append (take start file) (take (end - start) (drop start file))

reverse_bytes-append :
    (xs ys : Bytes) (s : Scan)
    → reverse_bytes (xs ++ ys) s ≡ (reverse_bytes xs s >>= reverse_bytes ys)
unfolding reverse_bytes
reverse_bytes-append [] ys s = refl
reverse_bytes-append (x ∷ xs) ys s = elim (Option-cases (reverse_byte x s)) [
  | inl e ↦ rw e refl
  | inr (s', e) ↦ rw e (reverse_bytes-append xs ys s')
]

bind-some : (o : Option Scan) → (o >>= λ s. some s) ≡ o
bind-some none = refl
bind-some (some s) = refl

pub reverse_bytes-snoc :
    (xs : Bytes) (b : ℕ) (s : Scan)
    → reverse_bytes (xs ++ b ∷ []) s ≡ (reverse_bytes xs s >>= reverse_byte b)
unfolding reverse_bytes
reverse_bytes-snoc xs b s =
    reverse_bytes-append xs (b ∷ []) s
    ∙ ap (λ k. reverse_bytes xs s >>= k) (fun_ext (λ s'. bind-some (reverse_byte b s')))

pub reverse_loop_lem :
    (fuel : ℕ) (file : Bytes) (at : ℕ) (s : Scan)
    → at ≤ fuel
    → reverse_loop fuel file at s ≡ reverse_bytes (reverse (take at file)) s
unfolding reverse_loop reverse_bytes
reverse_loop_lem zero file zero s h = refl
reverse_loop_lem zero file (suc p) s h = absurd (omega arith)
reverse_loop_lem (suc fuel) file zero s h = refl
reverse_loop_lem (suc fuel) file (suc p) s h =
    let start = suc p - buffer_size in
    let behind = reverse_bytes (reverse (take start file)) in
    ap (λ k. reverse_bytes (buffer_back file start (suc p)) s >>= k)
      (fun_ext (λ s'. reverse_loop_lem fuel file start s' (omega (arith, h))))
    ∙ sym (reverse_bytes-append (buffer_back file start (suc p)) (reverse (take start file)) s)
    ∙ ap (λ bs. reverse_bytes bs s) (sym (buffers file start (suc p) (omega arith)))

numbered_bytes-append :
    (xs ys : Bytes) (s : NumberedScan)
    → numbered_bytes (xs ++ ys) s ≡ numbered_bytes ys (numbered_bytes xs s)
unfolding numbered_bytes
numbered_bytes-append [] ys s = refl
numbered_bytes-append (x ∷ xs) ys s = numbered_bytes-append xs ys _

pub numbered_bytes-snoc :
    (xs : Bytes) (b : ℕ) (s : NumberedScan)
    → numbered_bytes (xs ++ b ∷ []) s ≡ numbered_byte b (numbered_bytes xs s)
unfolding numbered_bytes
numbered_bytes-snoc xs b s = numbered_bytes-append xs (b ∷ []) s

pub numbered_loop_lem :
    (fuel : ℕ) (file : Bytes) (at : ℕ) (s : NumberedScan)
    → at ≤ fuel
    → numbered_loop fuel file at s ≡ numbered_bytes (reverse (take at file)) s
unfolding numbered_loop numbered_bytes
numbered_loop_lem zero file zero s h = refl
numbered_loop_lem zero file (suc p) s h = absurd (omega arith)
numbered_loop_lem (suc fuel) file zero s h = refl
numbered_loop_lem (suc fuel) file (suc p) s h =
    let start = suc p - buffer_size in
    let s' = numbered_bytes (buffer_back file start (suc p)) s in
    numbered_loop_lem fuel file start s' (omega (arith, h))
    ∙ sym (numbered_bytes-append (buffer_back file start (suc p)) (reverse (take start file)) s)
    ∙ ap (λ bs. numbered_bytes bs s) (sym (buffers file start (suc p) (omega arith)))
