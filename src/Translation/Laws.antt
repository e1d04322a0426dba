-- ===== src/Translation/Laws.antt =====
-- One placeholder, and a value with and without dollar signs.
use go_check_ssl.Prelude.{
  ℕ, ◌-◌, zero, true, false, not, [], ◌∷◌, ◌++◌, ◌==◌, length, ◌≡◌, refl, ap, sym, ◌∙◌, arith,
  and-eq-true, ==_refl, some,
}
use go_check_ssl.Prelude.Text.{Text, codes, starts_with}
use go_check_ssl.Prelude.Text.Split.{lacks}
use go_check_ssl.Translation.{substitute, drop, replace_from, replace_all, placeholder, interpolate}

pub substitute-plain :
    (before matched after s : Text) → lacks b'$' s ≡ true → substitute before matched after s ≡ s
unfolding substitute
substitute-plain before matched after [] h = refl
substitute-plain before matched after (c ∷ []) h = refl
substitute-plain before matched after (c ∷ d ∷ s) h =
    let (here, there) = and-eq-true (not (c == b'$')) (lacks b'$' (d ∷ s)) h in
    let other : (c == b'$') ≡ false = ground (arith, here) in
    rw (other, substitute-plain before matched after (d ∷ s) there) refl

substitute-dollars :
    (before matched after v w : Text)
    → lacks b'$' v ≡ true
    → lacks b'$' w ≡ true
    → substitute before matched after (v ++ b'$' ∷ b'$' ∷ w) ≡ v ++ b'$' ∷ w
unfolding substitute
substitute-dollars before matched after [] w h k =
    ap (λ s. b'$' ∷ s) (substitute-plain before matched after w k)
substitute-dollars before matched after (c ∷ []) w h k =
    let (here, _) = and-eq-true (not (c == b'$')) true h in
    let other : (c == b'$') ≡ false = ground (arith, here) in
    rw (other, substitute-plain before matched after w k) refl
substitute-dollars before matched after (c ∷ d ∷ v) w h k =
    let (here, there) = and-eq-true (not (c == b'$')) (lacks b'$' (d ∷ v)) h in
    let other : (c == b'$') ≡ false = ground (arith, here) in
    rw other (ap (λ s. c ∷ s) (substitute-dollars before matched after (d ∷ v) w there k))

pub starts_with-append : (p s : Text) → starts_with (p ++ s) p ≡ true
unfolding starts_with
starts_with-append [] s = refl
starts_with-append (c ∷ p) s = rw (==_refl c) (starts_with-append p s)

pub drop-append : (p s : Text) → drop (length p) (p ++ s) ≡ s
unfolding drop
drop-append [] s = refl
drop-append (c ∷ p) s = drop-append p s

pub no_match :
    (key : Text) (c : ℕ) (s : Text)
    → not (c == b'{') ≡ true
    → starts_with (c ∷ s) (placeholder key) ≡ false
unfolding placeholder codes starts_with
no_match key c s here = let other : (c == b'{') ≡ false = ground (arith, here) in rw other refl

-- Where no brace stands, nothing is replaced.
pub replace_from-plain :
    (before key value s : Text)
    → lacks b'{' s ≡ true
    → replace_from before zero (placeholder key) value s ≡ s
unfolding replace_from placeholder codes starts_with
replace_from-plain before key value [] h = refl
replace_from-plain before key value (c ∷ s) h =
    let (here, there) = and-eq-true (not (c == b'{')) (lacks b'{' s) h in
    let other : (c == b'{') ≡ false = ground (arith, here) in
    rw (other, replace_from-plain (before ++ c ∷ []) key value s there) refl

-- The rest of a match is passed over, whatever then becomes of the text behind it.
skipped :
    (before key value p s r : Text)
    → ((b' : Text) → replace_from b' zero (placeholder key) value s ≡ r)
    → replace_from before (length p) (placeholder key) value (p ++ s) ≡ r
unfolding replace_from
skipped before key value [] s r k = k before
skipped before key value (c ∷ p) s r k = skipped (before ++ c ∷ []) key value p s r k

-- The placeholder without its first brace.
pub after_brace : Text → Text
after_brace key = b'{' ∷ (key ++ codes "}}")

pub placeholder_lem : (key : Text) → placeholder key ≡ b'{' ∷ after_brace key
unfolding placeholder after_brace codes
placeholder_lem key = refl

pub length-after_brace : (key : Text) → length (placeholder key) - 1 ≡ length (after_brace key)
length-after_brace key = ap (λ p. length p - 1) (placeholder_lem key) ∙ omega arith

pub replaced :
    (before key value b r : Text)
    → ((b' : Text) → replace_from b' zero (placeholder key) value b ≡ r)
    → replace_from before zero (placeholder key) value (b'{' ∷ (after_brace key ++ b))
      ≡ substitute before (placeholder key) b value ++ r
unfolding replace_from
replaced before key value b r k =
    let same : b'{' ∷ (after_brace key ++ b) ≡ placeholder key ++ b =
      ap (λ p. p ++ b) (sym (placeholder_lem key)) in
    let found : starts_with (b'{' ∷ (after_brace key ++ b)) (placeholder key) ≡ true =
      ap (λ s. starts_with s (placeholder key)) same ∙ starts_with-append (placeholder key) b in
    let rest : drop (length (placeholder key)) (b'{' ∷ (after_brace key ++ b)) ≡ b =
      ap (drop (length (placeholder key))) same ∙ drop-append (placeholder key) b in
    rw (found, rest, length-after_brace key)
      (ap (λ s. substitute before (placeholder key) b value ++ s)
        (skipped (before ++ b'{' ∷ []) key value (after_brace key) b r k))

-- In front of a text that is replaced by `r` whatever stands before it.
pub prefixed :
    (before key value a s r : Text)
    → lacks b'{' a ≡ true
    → ((b' : Text) → replace_from b' zero (placeholder key) value s ≡ r)
    → replace_from before zero (placeholder key) value (a ++ s) ≡ a ++ r
unfolding replace_from starts_with
prefixed before key value [] s r h k = k before
prefixed before key value (c ∷ a) s r h k =
    let (here, there) = and-eq-true (not (c == b'{')) (lacks b'{' a) h in
    let other : starts_with (c ∷ (a ++ s)) (placeholder key) ≡ false =
      no_match key c (a ++ s) here in
    rw (other, prefixed (before ++ c ∷ []) key value a s r there k) refl

one_placeholder :
    (key value shown a b : Text)
    → lacks b'{' a ≡ true
    → lacks b'{' b ≡ true
    → ((before matched after : Text) → substitute before matched after value ≡ shown)
    → interpolate (a ++ (placeholder key ++ b)) (some ((key, value) ∷ [])) ≡ a ++ (shown ++ b)
unfolding interpolate replace_all
one_placeholder key value shown a b h k e =
    prefixed [] key value a (placeholder key ++ b) (shown ++ b) h (λ before.
      ap (λ p. replace_from before zero (placeholder key) value (p ++ b)) (placeholder_lem key)
      ∙ replaced before key value b b (λ b'. replace_from-plain b' key value b k)
      ∙ ap (λ s. s ++ b) (e before (placeholder key) b))

-- A value with two dollar signs in a row, and no other, loses one of them: the value is not shown
-- as it is, since it is used as the pattern of a replacement.
interpolate_dollars :
    (key v w a b : Text)
    → lacks b'{' a ≡ true
    → lacks b'{' b ≡ true
    → lacks b'$' v ≡ true
    → lacks b'$' w ≡ true
    → interpolate (a ++ (placeholder key ++ b)) (some ((key, v ++ b'$' ∷ b'$' ∷ w) ∷ []))
      ≡ a ++ ((v ++ b'$' ∷ w) ++ b)
interpolate_dollars key v w a b h k e f =
    one_placeholder key (v ++ b'$' ∷ b'$' ∷ w) (v ++ b'$' ∷ w) a b h k
      (λ before. λ matched. λ after. substitute-dollars before matched after v w e f)
