-- ===== src/Identity/Values/Tokens.antt =====
-- A key's token is read back as the prefix and the secret that it was made of.
use shared_integration.Prelude.{
  ℕ, ◌+◌, ◌≤◌, ◌≡◌, refl, ◌∙◌, true, false, some, [], ◌∷◌, ◌++◌, ◌==◌, arith, ltb, length,
  length-append, Text, partition, all_codes, is_hex, fullmatch, has_prefix, le→leb,
}
use shared_integration.Identity.Values.{key_token, parse_key, is_key_prefix}

-- The mark of a prefix: four characters, none of them a full stop.
abbrev pub mark_of : ℕ → Text
mark_of c = 105 ∷ 103 ∷ c ∷ 95 ∷ []

partition_hex :
    (hex secret : Text)
    → all_codes is_hex hex ≡ true
    → partition 46 (hex ++ 46 ∷ secret) ≡ record { before = hex; found = true; after = secret }
unfolding partition all_codes
partition_hex [] secret h = refl
partition_hex (c ∷ hex) secret h =
    let rest = partition_hex hex secret (ground (arith, h)) in rw rest (ground (arith, h))

partition_key :
    (c : ℕ) (hex secret : Text)
    → (c == 46) ≡ false
    → all_codes is_hex hex ≡ true
    → partition 46 (key_token (mark_of c ++ hex) secret)
      ≡ record { before = mark_of c ++ hex; found = true; after = secret }
unfolding partition
partition_key c hex secret other h = rw (partition_hex hex secret h) (ground (arith, other))

token_length :
    (c : ℕ) (hex secret : Text)
    → length (key_token (mark_of c ++ hex) secret) ≡ length hex + (length secret + 5)
token_length c hex secret = omega (arith, length-append hex (46 ∷ secret))

own_prefix :
    (c : ℕ) (hex : Text) → is_key_prefix (mark_of c) (mark_of c ++ hex) ≡ fullmatch is_hex 24 24 hex
unfolding has_prefix
own_prefix c hex = ground arith

pub parse-key_token :
    (c : ℕ) (hex secret : Text)
    → (c == 46) ≡ false
    → fullmatch is_hex 24 24 hex ≡ true
    → 32 ≤ length secret
    → length secret ≤ 64
    → parse_key (mark_of c) (key_token (mark_of c ++ hex) secret)
      ≡ some (record { prefix = mark_of c ++ hex; secret = secret })
unfolding parse_key
parse-key_token c hex secret other h lo hi =
    let fits : ltb 128 (length (key_token (mark_of c ++ hex) secret)) ≡ false =
      ground (arith, token_length c hex secret, h, hi) in
    let shape : is_key_prefix (mark_of c) (mark_of c ++ hex) ≡ true = own_prefix c hex ∙ h in
    let all_hex : all_codes is_hex hex ≡ true = ground (arith, h) in
    rw
      (
        fits,
        parse_key,
        partition_key c hex secret other all_hex,
        shape,
        le→leb 32 (length secret) lo,
        le→leb (length secret) 64 hi,
      )
      refl
