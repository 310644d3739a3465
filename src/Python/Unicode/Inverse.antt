-- ===== src/Python/Unicode/Inverse.antt =====
-- What the decoder reads is what the encoder writes: no byte string but the encoding of a text is
-- decoded to that text.
use mumu_autotask.Prelude.{
  ℕ, ◌≤◌, ◌<◌, ◌≡◌, ◌≢◌, inl, inr, refl, false, some, List, [], ◌∷◌, ◌++◌, ltb, ok, arith,
  Bool-cases,
}
use mumu_autotask.Python.Value.{Text}
use mumu_autotask.Python.Unicode.{encode_char, encode, idle, decode_byte, decode_from, decode}
use mumu_autotask.Python.Unicode.RoundTrip.{IsScalar}

-- The first character of what is decoded, and the bytes behind it.
abbrev Begins : List ℕ → ℕ → Text → List ℕ → Type 0
Begins bytes c s rest =
    (bytes ≡ encode_char c ++ rest) × IsScalar c × (decode_from idle rest ≡ some s)

decode_nil : (bytes : List ℕ) → decode_from idle bytes ≡ some [] → bytes ≡ []
unfolding decode_from decode_byte
decode_nil [] h = refl
decode_nil (b ∷ []) h = ground arith
decode_nil (b ∷ b₂ ∷ []) h = ground arith
decode_nil (b ∷ b₂ ∷ b₃ ∷ []) h = ground arith
decode_nil (b ∷ b₂ ∷ b₃ ∷ b₄ ∷ rest) h = ground arith

Begins-one :
    (b : ℕ) (rest : List ℕ) (c : ℕ) (s : Text)
    → b < 0x80
    → decode_from idle (b ∷ rest) ≡ some (c ∷ s)
    → Begins (b ∷ rest) c s rest
unfolding decode_from decode_byte encode_char
Begins-one b rest c s hb h = (ground arith, (ground arith, ground arith), ground arith)

Begins-two :
    (b b₂ : ℕ) (rest : List ℕ) (c : ℕ) (s : Text)
    → 0x80 ≤ b
    → b < 0xE0
    → decode_from idle (b ∷ b₂ ∷ rest) ≡ some (c ∷ s)
    → Begins (b ∷ b₂ ∷ rest) c s rest
unfolding decode_from decode_byte encode_char
Begins-two b b₂ rest c s hb kb h = (ground arith, (ground arith, ground arith), ground arith)

Begins-three :
    (b b₂ b₃ : ℕ) (rest : List ℕ) (c : ℕ) (s : Text)
    → 0xE0 ≤ b
    → b < 0xF0
    → decode_from idle (b ∷ b₂ ∷ b₃ ∷ rest) ≡ some (c ∷ s)
    → Begins (b ∷ b₂ ∷ b₃ ∷ rest) c s rest
unfolding decode_from decode_byte encode_char
Begins-three b b₂ b₃ rest c s hb kb h = (ground arith, (ground arith, ground arith), ground arith)

Begins-four :
    (b b₂ b₃ b₄ : ℕ) (rest : List ℕ) (c : ℕ) (s : Text)
    → 0xF0 ≤ b
    → decode_from idle (b ∷ b₂ ∷ b₃ ∷ b₄ ∷ rest) ≡ some (c ∷ s)
    → Begins (b ∷ b₂ ∷ b₃ ∷ b₄ ∷ rest) c s rest
unfolding decode_from decode_byte encode_char
Begins-four b b₂ b₃ b₄ rest c s hb h = (ground arith, (ground arith, ground arith), ground arith)

-- A first byte that wants more bytes than there are is refused.
short_fails : (b : ℕ) (c : ℕ) (s : Text) → 0x80 ≤ b → decode_from idle (b ∷ []) ≢ some (c ∷ s)
unfolding decode_from decode_byte
short_fails b c s hb h = ground arith

shorter_fails :
    (b b₂ : ℕ) (c : ℕ) (s : Text) → 0xE0 ≤ b → decode_from idle (b ∷ b₂ ∷ []) ≢ some (c ∷ s)
unfolding decode_from decode_byte
shorter_fails b b₂ c s hb h = ground arith

shortest_fails :
    (b b₂ b₃ : ℕ) (c : ℕ) (s : Text) → 0xF0 ≤ b → decode_from idle (b ∷ b₂ ∷ b₃ ∷ []) ≢ some (c ∷ s)
unfolding decode_from decode_byte
shortest_fails b b₂ b₃ c s hb h = ground arith

begins :
    (bytes : List ℕ) (c : ℕ) (s : Text)
    → decode_from idle bytes ≡ some (c ∷ s)
    → (rest : List ℕ) × Begins bytes c s rest
begins [] c s h = unfold decode_from in cc h
begins (b ∷ bytes) c s h = elim (Bool-cases (ltb b 0x80)) [
  | inl e ↦ (bytes, Begins-one b bytes c s (ground arith) h)
  | inr e ↦ two bytes (ground arith) h
]
  where
    four :
        (b₂ b₃ : ℕ) (r : List ℕ)
        → 0xF0 ≤ b
        → decode_from idle (b ∷ b₂ ∷ b₃ ∷ r) ≡ some (c ∷ s)
        → (rest : List ℕ) × Begins (b ∷ b₂ ∷ b₃ ∷ r) c s rest
    four b₂ b₃ [] k h = absurd (shortest_fails b b₂ b₃ c s k h)
    four b₂ b₃ (b₄ ∷ r) k h = (r, Begins-four b b₂ b₃ b₄ r c s k h)

    three :
        (b₂ : ℕ) (r : List ℕ)
        → 0xE0 ≤ b
        → decode_from idle (b ∷ b₂ ∷ r) ≡ some (c ∷ s)
        → (rest : List ℕ) × Begins (b ∷ b₂ ∷ r) c s rest
    three b₂ [] k h = absurd (shorter_fails b b₂ c s k h)
    three b₂ (b₃ ∷ r) k h = elim (Bool-cases (ltb b 0xF0)) [
      | inl e ↦ (r, Begins-three b b₂ b₃ r c s k (ground arith) h)
      | inr e ↦ four b₂ b₃ r (ground arith) h
    ]

    two :
        (r : List ℕ)
        → 0x80 ≤ b
        → decode_from idle (b ∷ r) ≡ some (c ∷ s)
        → (rest : List ℕ) × Begins (b ∷ r) c s rest
    two [] k h = absurd (short_fails b c s k h)
    two (b₂ ∷ r) k h = elim (Bool-cases (ltb b 0xE0)) [
      | inl e ↦ (r, Begins-two b b₂ r c s k (ground arith) h)
      | inr e ↦ three b₂ r (ground arith) h
    ]

encode_from_decode :
    (s : Text) (bytes : List ℕ) → decode_from idle bytes ≡ some s → encode s ≡ ok bytes
unfolding encode
encode_from_decode [] bytes h = rw (decode_nil bytes h)
encode_from_decode (c ∷ s) bytes h =
    let (rest, begun) = begins bytes c s h in
    let (e, scalar_c, h') = begun in
    let (scalar, bound) = scalar_c in
    let ih = encode_from_decode s rest h' in
    let not_above : ltb 0x10FFFF c ≡ false = ground arith in rw (ih, scalar, not_above, e)

-- The bytes that are decoded to a text are its encoding.
pub encode-decode : (s : Text) (bytes : List ℕ) → decode bytes ≡ some s → encode s ≡ ok bytes
unfolding decode
encode-decode = encode_from_decode
