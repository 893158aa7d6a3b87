-- ===== src/Recovery/Input.antt =====
-- `parse_input` of src/recovery.rs: the body without its trailing NUL bytes, as JSON.
use mathlib.Core.List.{append-nil, append_assoc}
use hcloud_csi_rwx.Prelude.{
  ℕ, zero, suc, ◌+◌, ◌≤◌, ◌≡◌, refl, ap, ◌∙◌, Option, none, some, List, [], ◌∷◌, ◌++◌, arith, ◌==◌,
  length, length-append, replicate, option_map, if◌then◌else◌, Option-cases, inl, inr,
}
use hcloud_csi_rwx.Kube.Session.{recode}
use hcloud_csi_rwx.Recovery.Types.{Codec, ApiResult, RecoveryBackendInput, bad_request}

-- `data.strip_suffix(&[0])`
pub strip_suffix_nul : List ℕ → Option (List ℕ)
strip_suffix_nul [] = none
strip_suffix_nul (b ∷ []) = if b == 0 then some [] else none
strip_suffix_nul (b ∷ c ∷ bs) = option_map (λ r. b ∷ r) (strip_suffix_nul (c ∷ bs))

-- `while let Some(rest) = data.strip_suffix(&[0]) { data = rest; }`, with fuel for the rounds.
pub strip_loop : ℕ → List ℕ → List ℕ
strip_loop zero bs = bs
strip_loop (suc fuel) bs = elim (strip_suffix_nul bs) [
  | none ↦ bs
  | some rest ↦ strip_loop fuel rest
]

-- Each round takes a byte, so as many rounds as there are bytes are enough.
unfoldable pub strip_nuls : List ℕ → List ℕ
unfolding strip_loop strip_suffix_nul
strip_nuls bs = strip_loop (length bs) bs

unfoldable pub parse_input : Codec → List ℕ → ApiResult RecoveryBackendInput
unfolding strip_nuls
parse_input c body = recode bad_request (c.input_from_slice (strip_nuls body))

strip_suffix_nul-append : (bs : List ℕ) → strip_suffix_nul (bs ++ 0 ∷ []) ≡ some bs
unfolding strip_suffix_nul
strip_suffix_nul-append [] = refl
strip_suffix_nul-append (b ∷ []) = refl
strip_suffix_nul-append (b ∷ c ∷ bs) = ground (arith, strip_suffix_nul-append (c ∷ bs))

-- A round shortens the data by the byte that it takes.
length-strip_suffix_nul :
    (bs : List ℕ) {rest : List ℕ} → strip_suffix_nul bs ≡ some rest → length bs ≡ length rest + 1
unfolding strip_suffix_nul
length-strip_suffix_nul [] e = ground arith
length-strip_suffix_nul (b ∷ []) e = ground arith
length-strip_suffix_nul (b ∷ c ∷ bs) e = elim (Option-cases (strip_suffix_nul (c ∷ bs))) [
  | inl n ↦ ground arith
  | inr (r, p) ↦ ground (arith, length-strip_suffix_nul (c ∷ bs) p)
]

strip_nuls-append : (bs : List ℕ) → strip_nuls (bs ++ 0 ∷ []) ≡ strip_nuls bs
unfolding strip_nuls
strip_nuls-append bs =
    let e : length (bs ++ 0 ∷ []) ≡ suc (length bs) = omega (arith, length-append bs (0 ∷ [])) in
    rw e (ground (arith, strip_suffix_nul-append bs))

-- With enough fuel the loop ends because no NUL is left.
strip_loop_done :
    (fuel : ℕ) (bs : List ℕ) → length bs ≤ fuel → strip_suffix_nul (strip_loop fuel bs) ≡ none
unfolding strip_loop
strip_loop_done zero [] h = unfold strip_suffix_nul in refl
strip_loop_done zero (b ∷ bs) h = absurd (omega arith)
strip_loop_done (suc fuel) bs h = elim (Option-cases (strip_suffix_nul bs)) [
  | inl n ↦ ground arith
  | inr (r, p) ↦
      let shorter = length-strip_suffix_nul bs p in
      ground (arith, strip_loop_done fuel r (omega arith))
]

-- The loop ends: what is parsed does not end in a NUL byte.
pub strip_nuls_done : (bs : List ℕ) → strip_suffix_nul (strip_nuls bs) ≡ none
unfolding strip_nuls
strip_nuls_done bs = strip_loop_done (length bs) bs (omega arith)

-- A body is read the same with any number of NUL bytes behind it.
pub parse_input-append_nuls :
    (c : Codec) (n : ℕ) (body : List ℕ) → parse_input c (body ++ replicate n 0) ≡ parse_input c body
unfolding parse_input
parse_input-append_nuls c n body = ap (λ bs. recode bad_request (c.input_from_slice bs)) (go n body)
  where
    go : (n : ℕ) (bs : List ℕ) → strip_nuls (bs ++ replicate n 0) ≡ strip_nuls bs
    go zero bs = rw append-nil
    go (suc n) bs =
        rw (← append_assoc bs (0 ∷ []) (replicate n 0)) (go n (bs ++ 0 ∷ []) ∙ strip_nuls-append bs)
