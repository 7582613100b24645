-- ===== src/Loader/Clear.antt =====
-- clear of core/proot/src/main/cpp/loader/loader.c, on words of eight bytes: the bytes to the first
-- aligned word, the words, and the bytes behind.
use re_terminal.Prelude.{
  ℕ, zero, suc, ◌+◌, ◌-◌, ◌*◌, ◌/◌, ◌%◌, ◌^◌, ◌<◌, ◌≤◌, ◌≡◌, refl, ◌∙◌, subst, ◌⊎◌, inl, inr, ◌==◌,
  ==_iff, if◌then◌else◌, if_each, arith,
}

-- The byte at each address.
abbrev pub ByteMap : Type 0
ByteMap = ℕ → ℕ

abbrev pub with_zero : ℕ → ByteMap → ByteMap
with_zero a m = λ b. if b == a then 0 else m b

-- The loops over bytes, with the bytes to go.
unfoldable pub clear_bytes : ℕ → ℕ → ByteMap → ByteMap
clear_bytes zero a m = m
clear_bytes (suc n) a m = clear_bytes n (a + 1) (with_zero a m)

-- The loop over words, with the words to go.
unfoldable pub clear_words : ℕ → ℕ → ByteMap → ByteMap
unfolding clear_bytes
clear_words zero a m = m
clear_words (suc n) a m = clear_words n (a + 8) (clear_bytes 8 a m)

abbrev pub start_aligned : ℕ → ℕ
start_aligned start = if start % 8 == 0 then start else (start + (8 - start % 8)) % 2 ^ 64

-- The first loop may go past `stop`, and the last one start before `start`.
unfoldable pub clear : ℕ → ℕ → ByteMap → ByteMap
unfolding clear_bytes clear_words
clear start stop m =
    let first = start_aligned start in
    let last = stop - stop % 8 in
    clear_bytes (stop - last) last
      (clear_words ((last - first) / 8) first (clear_bytes (first - start) start m))

-- n bytes from an address on are cleared, and no others.
pub record IsCleared (a n : ℕ) (m m' : ByteMap) : Type 0 where
  pub inside : (b : ℕ) → a ≤ b → b < a + n → m' b ≡ 0
  pub outside : (b : ℕ) → (b < a) ⊎ (a + n ≤ b) → m' b ≡ m b

IsCleared-at :
    (a a2 n n2 : ℕ) (m m' : ByteMap) → a ≡ a2 → n ≡ n2 → IsCleared a n m m' → IsCleared a2 n2 m m'
IsCleared-at a a2 n n2 m m' e f c =
    subst (λ k. IsCleared a2 k m m') f (subst (λ b. IsCleared b n m m') e c)

IsCleared-append :
    (a n k : ℕ) (m m' m'' : ByteMap)
    → IsCleared a n m m'
    → IsCleared (a + n) k m' m''
    → IsCleared a (n + k) m m''
IsCleared-append a n k m m' m'' p q = record {
  inside = λ b l h. either b l h (omega arith);
  outside = λ b o. q.outside b (omega (arith, o)) ∙ p.outside b (omega (arith, o));
}
  where
    either : (b : ℕ) → a ≤ b → b < a + (n + k) → (b < a + n) ⊎ (a + n ≤ b) → m'' b ≡ 0
    either b l h (inl i) = q.outside b (inl i) ∙ p.inside b l i
    either b l h (inr o) = q.inside b o (omega (arith, h))

with_zero-IsCleared : (a : ℕ) (m : ByteMap) → IsCleared a 1 m (with_zero a m)
with_zero-IsCleared a m = record { inside = λ b l h. ground arith; outside = λ b o. ground arith }

clear_bytes-IsCleared : (n a : ℕ) (m : ByteMap) → IsCleared a n m (clear_bytes n a m)
unfolding clear_bytes
clear_bytes-IsCleared zero a m = record {
  inside = λ b l h. absurd (omega (arith, l, h));
  outside = λ b o. refl;
}
clear_bytes-IsCleared (suc n) a m =
    subst (λ k. IsCleared a k m (clear_bytes n (a + 1) (with_zero a m))) (omega arith)
      (IsCleared-append a 1 n m (with_zero a m) (clear_bytes n (a + 1) (with_zero a m))
        (with_zero-IsCleared a m) (clear_bytes-IsCleared n (a + 1) (with_zero a m)))

clear_words-IsCleared : (n a : ℕ) (m : ByteMap) → IsCleared a (8 * n) m (clear_words n a m)
unfolding clear_words
clear_words-IsCleared zero a m = record {
  inside = λ b l h. absurd (omega (arith, l, h));
  outside = λ b o. refl;
}
clear_words-IsCleared (suc n) a m =
    let m' = clear_bytes 8 a m in
    subst (λ k. IsCleared a k m (clear_words n (a + 8) m')) (omega arith)
      (IsCleared-append a 8 (8 * n) m m' (clear_words n (a + 8) m') (clear_bytes-IsCleared 8 a m)
        (clear_words-IsCleared n (a + 8) m'))

-- The words stand between the bytes before and behind.
words_between :
    (start stop : ℕ)
    → start ≤ stop
    → stop + 8 < 2 ^ 64
    → (stop % 8 ≡ 0) ⊎ (start + 8 ≤ stop)
    → (start ≤ start_aligned start)
      × (start_aligned start % 8 ≡ 0)
      × (start_aligned start ≤ stop - stop % 8)
words_between start stop l o h =
    if_each (λ f. (start ≤ f) × (f % 8 ≡ 0) × (f ≤ stop - stop % 8)) (start % 8 == 0) start
      ((start + (8 - start % 8)) % 2 ^ 64)
      (λ e. let z = (==_iff (start % 8) 0).0 e in (omega arith, z, omega (arith, z, l)))
      (λ e.
        let z : 0 < start % 8 = ground arith in
        (omega (arith, l, o), omega (arith, l, o), omega (arith, z, l, o, h)))

-- For two addresses in order, eight bytes below 2 ^ 64, of which the second is a multiple of eight
-- or stands eight bytes or more behind the first, clear sets the bytes from the first up to the
-- second to zero and leaves all others.
pub clear-IsCleared :
    (start stop : ℕ) (m : ByteMap)
    → start ≤ stop
    → stop + 8 < 2 ^ 64
    → (stop % 8 ≡ 0) ⊎ (start + 8 ≤ stop)
    → IsCleared start (stop - start) m (clear start stop m)
unfolding clear
clear-IsCleared start stop m l o h =
    let first = start_aligned start in
    let last = stop - stop % 8 in
    let (p, q, r) = words_between start stop l o h in
    let whole : 8 * ((last - first) / 8) ≡ last - first = omega (arith, q, r) in
    let m1 = clear_bytes (first - start) start m in
    let m2 = clear_words ((last - first) / 8) first m1 in
    let m3 = clear_bytes (stop - last) last m2 in
    let before = clear_bytes-IsCleared (first - start) start m in
    let words =
      IsCleared-at first (start + (first - start)) (8 * ((last - first) / 8)) (last - first) m1 m2
        (omega (arith, p)) whole (clear_words-IsCleared ((last - first) / 8) first m1) in
    let behind =
      IsCleared-at last (start + (first - start + (last - first))) (stop - last) (stop - last) m2 m3
        (omega (arith, p, r)) refl (clear_bytes-IsCleared (stop - last) last m2) in
    IsCleared-at start start (first - start + (last - first) + (stop - last)) (stop - start) m m3
      refl (omega (arith, p, r))
      (IsCleared-append start (first - start + (last - first)) (stop - last) m m2 m3
        (IsCleared-append start (first - start) (last - first) m m1 m2 before words) behind)
