-- ===== src/Examples/Tokens.antt =====
-- A library of tokens and one of hashes that keep their laws: a token spells its secret and its claims.
use expense_management.Prelude.{
  ℕ, zero, suc, ◌≤◌, String, str_eq, eq_refl, Option, none, some, Bool, true, false, ◌==◌, ltb, ◌≡◌,
  refl, ap, sym, subst, ◌∙◌, if◌then◌else◌, Result, ok, err, arith,
}
use Prim.Native.Char.{Char, code}
use Prim.Native.String.{char_at}
use expense_management.Auth.Tokens.{
  Claims, Jwt, IsJwt, IsLive, before_expiry, after_start, SigningMethod, hmac, Keyfunc, Failure,
  panic, error, JwtError, jwt_panic, jwt_expired, jwt_other, ParsedToken,
}

abbrev dot : Char
dot = char_at "." 0

abbrev mark : Char
mark = char_at "x" 0

-- A text in front of another, and back.
abbrev write_text : String → String → String
write_text String.[] rest = String.◌∷◌ dot rest
write_text (String.◌∷◌ c s) rest = String.◌∷◌ mark (String.◌∷◌ c (write_text s rest))

abbrev onto : Char → Option (String × String) → Option (String × String)
onto c none = none
onto c (some (s, rest)) = some (String.◌∷◌ c s, rest)

abbrev read_text : String → Option (String × String)
read_text String.[] = none
read_text (String.◌∷◌ a String.[]) = if code a == 46 then some ("", "") else none
read_text (String.◌∷◌ a (String.◌∷◌ c rest)) =
    let later = read_text rest in
    if code a == 46 then some ("", String.◌∷◌ c rest) else onto c later

read_text-write_text : (s rest : String) → read_text (write_text s rest) ≡ some (s, rest)
read_text-write_text String.[] String.[] = refl
read_text-write_text String.[] (String.◌∷◌ c rest) = refl
read_text-write_text (String.◌∷◌ c s) rest = rw (read_text-write_text s rest) refl

abbrev write_number : Option ℕ → String → String
write_number none rest = String.◌∷◌ dot rest
write_number (some zero) rest = String.◌∷◌ mark (String.◌∷◌ dot rest)
write_number (some (suc n)) rest = String.◌∷◌ mark (write_number (some n) rest)

abbrev one_higher : Option (Option ℕ × String) → Option (Option ℕ × String)
one_higher none = none
one_higher (some (none, rest)) = some (some zero, rest)
one_higher (some (some n, rest)) = some (some (suc n), rest)

abbrev read_number : String → Option (Option ℕ × String)
read_number String.[] = none
read_number (String.◌∷◌ a rest) =
    let later = read_number rest in if code a == 46 then some (none, rest) else one_higher later

read_number-some :
    (n : ℕ) (rest : String) → read_number (write_number (some n) rest) ≡ some (some n, rest)
read_number-some zero rest = refl
read_number-some (suc n) rest = rw (read_number-some n rest) refl

read_number-write_number :
    (o : Option ℕ) (rest : String) → read_number (write_number o rest) ≡ some (o, rest)
read_number-write_number none rest = refl
read_number-write_number (some n) rest = read_number-some n rest

abbrev pub write_token : String → Claims → String
write_token secret c = write_text secret (
    write_text c.user_id (
      write_text c.email (
        write_text c.subject
          (write_number c.expires_at (write_number c.not_before (write_number c.issued_at ""))))))

abbrev then_read : {A B : Type 0} → Option A → (A → Option B) → Option B
then_read none f = none
then_read (some a) f = f a

abbrev read_token : String → Option (String × Claims)
read_token t = then_read (read_text t) λ (secret, r₀). then_read (read_text r₀) λ (user_id, r₁).
    then_read (read_text r₁) λ (email, r₂). then_read (read_text r₂) λ (subject, r₃).
      then_read (read_number r₃) λ (expires_at, r₄). then_read (read_number r₄) λ (not_before, r₅).
        then_read (read_number r₅) λ (issued_at, r₆). some (
          secret,
          record {
            user_id = user_id;
            email = email;
            expires_at = expires_at;
            not_before = not_before;
            issued_at = issued_at;
            subject = subject;
          },
        )

read_token-write_token :
    (secret : String) (c : Claims) → read_token (write_token secret c) ≡ some (secret, c)
read_token-write_token secret c =
    rw
      (
        read_text-write_text secret _,
        read_text-write_text c.user_id _,
        read_text-write_text c.email _,
        read_text-write_text c.subject _,
        read_number-write_number c.expires_at _,
        read_number-write_number c.not_before _,
        read_number-write_number c.issued_at "",
      )
      refl

abbrev its_claims : Option (String × Claims) → Option (SigningMethod × Claims)
its_claims none = none
its_claims (some (secret, c)) = some (hmac "HS256", c)

abbrev pub decode : String → Option (SigningMethod × Claims)
decode t = its_claims (read_token t)

abbrev its_secret : String → Option (String × Claims) → Bool
its_secret secret none = false
its_secret secret (some (s, c)) = str_eq s secret

abbrev pub verify : String → String → Bool
verify secret t = its_secret secret (read_token t)

abbrev timed : Claims → Bool → Bool → Result JwtError ParsedToken
timed c true true = ok (record { claims = c; valid = true })
timed c true false = err (jwt_other "token is not valid yet")
timed c false b = err jwt_expired

abbrev verified : ℕ → Claims → Bool → Result JwtError ParsedToken
verified now c true = timed c (before_expiry now c.expires_at) (after_start now c.not_before)
verified now c false = err (jwt_other "signature is invalid")

abbrev keyed : ℕ → String → Claims → Result Failure String → Result JwtError ParsedToken
keyed now t c (ok secret) = verified now c (verify secret t)
keyed now t c (err panic) = err jwt_panic
keyed now t c (err (error e)) = err (jwt_other "token is unverifiable")

abbrev decoded :
    ℕ → String → Keyfunc → Option (SigningMethod × Claims) → Result JwtError ParsedToken
decoded now t key none = err (jwt_other "token is malformed")
decoded now t key (some (method, c)) = keyed now t c (key method c)

abbrev pub sample_jwt : Jwt
sample_jwt = record {
  new_numeric_date = λ t. t;
  sign = λ secret c. ok (write_token secret c);
  parse_with_claims = λ now t key. decoded now t key (decode t);
}

timed-ok :
    (c : Claims) (a b : Bool) (p : ParsedToken)
    → timed c a b ≡ ok p
    → (p.claims ≡ c) × (a ≡ true) × (b ≡ true)
timed-ok c true true p h =
    let same : record { claims = c; valid = true } ≡ p = cc in
    (ap (λ q. q.claims) (sym same), refl, refl)
timed-ok c true false p h = absurd cc
timed-ok c false b p h = absurd cc

verified-ok :
    (now : ℕ) (c : Claims) (v : Bool) (p : ParsedToken)
    → verified now c v ≡ ok p
    → (p.claims ≡ c) × (v ≡ true) × IsLive now c
verified-ok now c true p h =
    let (same, a, b) =
      timed-ok c (before_expiry now c.expires_at) (after_start now c.not_before) p h in
    (same, refl, (a, b))
verified-ok now c false p h = absurd cc

keyed-ok :
    (now : ℕ) (t : String) (c : Claims) (k : Result Failure String) (p : ParsedToken)
    → keyed now t c k ≡ ok p
    → (secret : String) × (p.claims ≡ c) × (k ≡ ok secret) × (verify secret t ≡ true) × IsLive now c
keyed-ok now t c (ok secret) p h =
    let (same, v, live) = verified-ok now c (verify secret t) p h in (secret, same, refl, v, live)
keyed-ok now t c (err panic) p h = absurd cc
keyed-ok now t c (err (error e)) p h = absurd cc

abbrev Parsed : ℕ → String → Keyfunc → Option (SigningMethod × Claims) → Claims → Type 0
Parsed now t key o c =
    (method : SigningMethod) × (secret : String) × (o ≡ some (method, c))
    × (key method c ≡ ok secret)
    × (verify secret t ≡ true)
    × IsLive now c

decoded-ok :
    (now : ℕ) (t : String) (key : Keyfunc) (o : Option (SigningMethod × Claims)) (p : ParsedToken)
    → decoded now t key o ≡ ok p
    → Parsed now t key o p.claims
decoded-ok now t key none p h = absurd cc
decoded-ok now t key (some (method, c)) p h =
    let (secret, same, k, v, live) = keyed-ok now t c (key method c) p h in
    subst (λ d. Parsed now t key (some (method, c)) d) (sym same) (method, secret, refl, k, v, live)

leb-past : (now e : ℕ) → e ≤ now → ltb now e ≡ false
leb-past now e h = ground arith

pub sample_jwt-IsJwt : IsJwt sample_jwt decode verify
sample_jwt-IsJwt = record {
  decode_empty = refl;
  numeric_date_le = λ t. omega arith;
  numeric_date_lt = λ t. omega arith;
  numeric_date_idem = λ t. refl;
  sign_decode = λ secret c t h w.
      let same : write_token secret c ≡ t = cc in
      subst (λ u. decode u ≡ some (hmac "HS256", c)) same
        (ap its_claims (read_token-write_token secret c));
  sign_verify = λ secret c t h.
      let same : write_token secret c ≡ t = cc in
      subst (λ u. verify secret u ≡ true) same
        (ap (its_secret secret) (read_token-write_token secret c) ∙ eq_refl secret);
  parse_accepts = λ now t key method c secret d k v l. rw (d, k, v, l.0, l.1) refl;
  parse_ok = λ now t key p h. decoded-ok now t key (decode t) p h;
  parse_expired =
      λ now t key method c secret e d k v x past. rw (d, k, v, x, leb-past now e past) refl;
  parse_bad_signature =
      λ now t key method c secret d k v. ("signature is invalid", rw (d, k, v) refl);
  parse_panic = λ now t key method c d k. rw (d, k) refl;
  parse_undecoded = λ now t key d. ("token is malformed", rw d refl);
}
