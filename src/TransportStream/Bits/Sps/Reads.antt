-- ===== src/TransportStream/Bits/Sps/Reads.antt =====
-- What a reader takes from the bits in front of it, and how that composes.
use openplatform_rdk_aamp.Prelude.{
  ℕ, ◌%◌, ◌^◌, ◌≡◌, refl, ap, ◌∙◌, List, [], ◌∷◌, ◌++◌, Bool, true, false, none, some, length,
}
use mathlib.Core.List.{append_assoc}
use openplatform_rdk_aamp.TransportStream.Bits.{
  Cursor, get_bits, get_u_exp_golomb, get_s_exp_golomb, signed_code, one_of,
}
use openplatform_rdk_aamp.TransportStream.Bits.Sequence.{At, get_bits_loop-At, number_from}
use openplatform_rdk_aamp.TransportStream.Bits.Golomb.{IsLog, golomb_code, get_u_exp_golomb-code}
use openplatform_rdk_aamp.TransportStream.Bits.Sps.{Reader, returns, ◌>>=◌, skip_codes}

-- A number with the length of its code.
pub record Code : Type 0 where
  pub log : ℕ
  pub value : ℕ
  pub is_log : IsLog log value

abbrev pub code_bits : Code → List Bool
code_bits k = golomb_code k.log k.value

pub record Reads {ℓ} {A : Type ℓ} (r : Reader A) (bits : List Bool) (a : A) : Type ℓ where
  pub result :
      (c : Cursor) (rest : List Bool)
      → At c (bits ++ rest)
      → (next : Cursor) × (r c ≡ some (a, next)) × At next rest

pub Reads-returns {ℓ} : {A : Type ℓ} (a : A) → Reads (returns a) [] a
Reads-returns a = record { result = λ c rest h. (c, refl, h) }

bind-some {ℓ κ} :
    {A : Type ℓ} {B : Type κ} (r : Reader A) (f : A → Reader B) (c next : Cursor) (a : A)
    → r c ≡ some (a, next)
    → (r >>= f) c ≡ f a next
unfolding ◌>>=◌
bind-some r f c next a e = ap (λ o. elim o [ none ↦ none | some (x, d) ↦ f x d ]) e

pub after {ℓ κ} :
    {A : Type ℓ} {B : Type κ} {r : Reader A} {a : A} {b : B} {cs : List Bool} (bs : List Bool)
    (f : A → Reader B)
    → Reads r bs a
    → Reads (f a) cs b
    → Reads (r >>= f) (bs ++ cs) b
after {cs} bs g first second = record {
  result = λ c rest h.
      let (next, e, left) = first.result c (cs ++ rest) (h.0 ∙ append_assoc bs cs rest, h.1) in
      let (last, f, done) = second.result next rest left in
      (last, bind-some _ g c next _ e ∙ f, done);
}

pub Reads-code : (k : Code) → Reads get_u_exp_golomb (code_bits k) k.value
Reads-code k = record { result = λ c rest h. get_u_exp_golomb-code k.log k.value rest c k.is_log h }

pub Reads-signed : (k : Code) → Reads get_s_exp_golomb (code_bits k) (signed_code k.value)
unfolding get_s_exp_golomb
Reads-signed k = record {
  result = λ c rest h.
      let (next, e, left) = get_u_exp_golomb-code k.log k.value rest c k.is_log h in
      (next, rw e refl, left);
}

flag_value : (x : Bool) → number_from 0 (x ∷ []) % 2 ^ 32 ≡ one_of x
unfolding number_from
flag_value true = refl
flag_value false = refl

pub Reads-flag : (x : Bool) → Reads (get_bits 1) (x ∷ []) (one_of x)
Reads-flag x = record {
  result = λ c rest h.
      let (next, e, left) = get_bits_loop-At (x ∷ []) rest 0 c h in
      (next, e ∙ ap (λ n. some (n, next)) (flag_value x), left);
}

abbrev pub codes_bits : List Code → List Bool
codes_bits [] = []
codes_bits (k ∷ ks) = code_bits k ++ codes_bits ks

pub Reads-codes : (ks : List Code) → Reads (skip_codes (length ks)) (codes_bits ks) 0
unfolding skip_codes
Reads-codes [] = Reads-returns 0
Reads-codes (k ∷ ks) = after (code_bits k) _ (Reads-code k) (Reads-codes ks)
