-- ===== src/Ring/Copy.antt =====
-- What `memcpy` leaves at each index, and lists given index by index.
use computer_net_ucas.Common.{
  ℕ, zero, suc, ◌+◌, ◌-◌, ◌≤◌, ◌<◌, ◌≡◌, refl, sym, ap, ◌∙◌, ◌&&◌, List, [], ◌∷◌, ◌++◌, ltb, leb,
  ◌==◌, if◌then◌else◌, length, get_or, set, take, drop, get_or-set, length-set, arith,
}
use computer_net_ucas.Ring.{memcpy, slice}

pub length-memcpy : (buf : List ℕ) (off : ℕ) (bs : List ℕ) → length (memcpy buf off bs) ≡ length buf
unfolding memcpy
length-memcpy buf off [] = refl
length-memcpy buf off (b ∷ bs) = length-memcpy (set buf off b) (off + 1) bs ∙ length-set buf off b

get_or-cons :
    (b : ℕ) (bs : List ℕ) (k : ℕ)
    → get_or (b ∷ bs) k 0 ≡ (if k == 0 then b else get_or bs (k - 1) 0)
get_or-cons b bs zero = refl
get_or-cons b bs (suc k) =
    let e : suc k - 1 ≡ k = omega arith in ground (arith, ap {B = ℕ} (λ i. get_or bs i 0) e)

-- The copied bytes stand at their place, and every other byte is as it was.
pub get_or-memcpy :
    (buf : List ℕ) (off : ℕ) (bs : List ℕ) (j : ℕ)
    → off + length bs ≤ length buf
    → get_or (memcpy buf off bs) j 0
      ≡ (if leb off j && ltb j (off + length bs) then get_or bs (j - off) 0 else get_or buf j 0)
unfolding memcpy
get_or-memcpy buf off [] j h = ground arith
get_or-memcpy buf off (b ∷ bs) j h =
    get_or-memcpy (set buf off b) (off + 1) bs j (omega (arith, length-set buf off b))
    ∙ ground (
      arith,
      get_or-set buf off j b 0,
      get_or-cons b bs (j - off),
      ap {B = ℕ} (λ i. get_or bs i 0) (shift off j),
    )
  where
    shift : (off j : ℕ) → j - off - 1 ≡ j - (off + 1)
    shift off j = omega arith

-- `f 0 ∷ f 1 ∷ …`, `n` of them.
abbrev pub tabulate : ℕ → (ℕ → ℕ) → List ℕ
tabulate zero f = []
tabulate (suc n) f = f 0 ∷ tabulate n (λ k. f (suc k))

pub length-tabulate : (n : ℕ) (f : ℕ → ℕ) → length (tabulate n f) ≡ n
length-tabulate zero f = refl
length-tabulate (suc n) f = ap suc (length-tabulate n (λ k. f (suc k)))

pub tabulate-ext :
    (n : ℕ) (f g : ℕ → ℕ) → ((k : ℕ) → k < n → f k ≡ g k) → tabulate n f ≡ tabulate n g
tabulate-ext zero f g h = refl
tabulate-ext (suc n) f g h = cc (
  h 0 (omega arith),
  tabulate-ext n (λ k. f (suc k)) (λ k. g (suc k)) (λ k lt. h (suc k) (omega arith)),
)

pub tabulate-append :
    (m n : ℕ) (f : ℕ → ℕ) → tabulate (m + n) f ≡ tabulate m f ++ tabulate n (λ k. f (m + k))
tabulate-append zero n f =
    let e : 0 + n ≡ n = omega arith in
    ap (λ m. tabulate m f) e ∙ tabulate-ext n f _ (λ k lt. ap f (omega arith))
tabulate-append (suc m) n f =
    let e : suc m + n ≡ suc (m + n) = omega arith in
    ap (λ k. tabulate k f) e
    ∙ ap (λ t. f 0 ∷ t)
        (tabulate-append m n (λ k. f (suc k))
          ∙ ap (λ t. tabulate m (λ k. f (suc k)) ++ t)
              (tabulate-ext n _ _ (λ k lt. ap f (omega arith))))

pub tabulate-get_or : (bs : List ℕ) → tabulate (length bs) (λ k. get_or bs k 0) ≡ bs
tabulate-get_or [] = refl
tabulate-get_or (b ∷ bs) = ap (λ t. b ∷ t) (tabulate-get_or bs)

take-tabulate : (n : ℕ) (xs : List ℕ) → n ≤ length xs → take n xs ≡ tabulate n (λ k. get_or xs k 0)
take-tabulate zero xs h = refl
take-tabulate (suc n) [] h = absurd (omega arith)
take-tabulate (suc n) (x ∷ xs) h = ap (λ t. x ∷ t) (take-tabulate n xs (omega arith))

pub length-drop : (n : ℕ) (xs : List ℕ) → length (drop n xs) ≡ length xs - n
length-drop zero xs = omega arith
length-drop (suc n) [] = omega arith
length-drop (suc n) (x ∷ xs) = omega (arith, length-drop n xs)

pub get_or-drop : (n k : ℕ) (xs : List ℕ) → get_or (drop n xs) k 0 ≡ get_or xs (n + k) 0
get_or-drop zero k xs = ap (λ i. get_or xs i 0) (omega arith)
get_or-drop (suc n) k [] = refl
get_or-drop (suc n) k (x ∷ xs) =
    get_or-drop n k xs ∙ sym (ap (λ i. get_or (x ∷ xs) i 0) (suc_out n k))
  where
    suc_out : (n k : ℕ) → suc n + k ≡ suc (n + k)
    suc_out n k = omega arith

pub get_or-take : (n k : ℕ) (xs : List ℕ) → k < n → get_or (take n xs) k 0 ≡ get_or xs k 0
get_or-take zero k xs h = absurd (omega arith)
get_or-take (suc n) k [] h = refl
get_or-take (suc n) zero (x ∷ xs) h = refl
get_or-take (suc n) (suc k) (x ∷ xs) h = get_or-take n k xs (omega arith)

pub slice-tabulate :
    (buf : List ℕ) (off n : ℕ)
    → off + n ≤ length buf
    → slice buf off n ≡ tabulate n (λ k. get_or buf (off + k) 0)
slice-tabulate buf off n h =
    take-tabulate n (drop off buf) (omega (arith, length-drop off buf))
    ∙ tabulate-ext n _ _ (λ k lt. get_or-drop off k buf)
