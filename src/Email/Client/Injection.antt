-- ===== src/Email/Client/Injection.antt =====
-- The checks of New and SendWithMessageID of email/client.go against header injection.
use packages_go.Prelude.{
  ◌≡◌, refl, Bool, true, false, not, ◌&&◌, ◌||◌, List, [], ◌∷◌, Bytes, All, Bool-cases, inl, inr,
  contains_any, contains_byte, is_empty, and_split, neither, arith, Option, ℤ,
}
use packages_go.Email.{ok}
use packages_go.Email.Message.{header_lines}
use packages_go.Email.Message.Headers.{
  HasNoCr, read_headers, build_raw_message-headers, contains_any-HasNoCr,
}
use packages_go.Email.Client.{Config, crlf, new, bad_address, is_valid, post_of, Envelope}

negated : (b : Bool) → not b ≡ true → b ≡ false
negated true h = cc
negated false h = refl

bad_address-HasNoCr : (to : List Bytes) → bad_address to ≡ false → All HasNoCr to
unfolding bad_address
bad_address-HasNoCr [] h = tt
bad_address-HasNoCr (a ∷ to) h =
    let (one, rest) = neither (is_empty a || contains_any crlf a) (bad_address to) h in
    let (e, c) = neither (is_empty a) (contains_any crlf a) one in
    (contains_any-HasNoCr a c, bad_address-HasNoCr to rest)

id-HasNoCr : (s : Bytes) → contains_any (b'\r' ∷ b'\n' ∷ b'<' ∷ b'>' ∷ []) s ≡ false → HasNoCr s
unfolding contains_any contains_byte
id-HasNoCr [] h = tt
id-HasNoCr (c ∷ s) h = (ground arith, id-HasNoCr s (ground arith))

new-HasNoCr : (cfg c : Config) → new cfg ≡ ok c → HasNoCr c.from
unfolding new
new-HasNoCr cfg c h = elim (Bool-cases (is_empty cfg.account_id)) [
  | inl e ↦ absurd (cc (h, e))
  | inr e ↦ elim (Bool-cases (is_empty cfg.api_token)) [
    | inl k ↦ absurd (cc (h, e, k))
    | inr k ↦
        elim (Bool-cases (
          is_empty cfg.from || (not (contains_byte b'@' cfg.from) || contains_any crlf cfg.from))) [
            | inl l ↦ absurd (cc (h, e, k, l))
            | inr l ↦
                let same : ok cfg ≡ ok c = rw (e, k, l) at h in
                let (f, g) =
                  neither (is_empty cfg.from)
                    (not (contains_byte b'@' cfg.from) || contains_any crlf cfg.from) l in
                let (m, n) =
                  neither (not (contains_byte b'@' cfg.from)) (contains_any crlf cfg.from) g in
                let clear : HasNoCr cfg.from = contains_any-HasNoCr cfg.from n in
                let c_is : cfg ≡ c = cc in rw (← c_is) clear
          ]
  ]
]

module _ (decode : Bytes → Option Envelope) (until : Bytes → Option ℤ) where
  -- With a client that New accepts, mail that passes the checks, and a date without CR, the message
  -- that is posted has exactly the eight header lines that the code writes, and the body is what
  -- follows them: neither a subject, an address nor an ID can add a header.
  pub post_of-headers :
      (cfg c : Config) (to : List Bytes) (subject body id date : Bytes)
      → new cfg ≡ ok c
      → is_valid to subject body id ≡ true
      → HasNoCr date
      → read_headers [] false (post_of decode until c to subject body id date).mime_message
        ≡ (header_lines c.from to subject id date, body)
  unfolding is_valid
  post_of-headers cfg c to subject body id date made valid dated =
      let bad_id = is_empty id || contains_any (b'\r' ∷ b'\n' ∷ b'<' ∷ b'>' ∷ []) id in
      let missing = is_empty to || (is_empty subject || is_empty body) in
      let (i, rest) =
        and_split (not bad_id)
          (not missing && (not (contains_any crlf subject) && not (bad_address to))) valid in
      let (p, texts) =
        and_split (not missing) (not (contains_any crlf subject) && not (bad_address to)) rest in
      let (s, t) = and_split (not (contains_any crlf subject)) (not (bad_address to)) texts in
      let (empty, clear) =
        neither (is_empty id) (contains_any (b'\r' ∷ b'\n' ∷ b'<' ∷ b'>' ∷ []) id)
          (negated bad_id i) in
      build_raw_message-headers c.from to subject body id date (new-HasNoCr cfg c made)
        (bad_address-HasNoCr to (negated (bad_address to) t))
        (contains_any-HasNoCr subject (negated (contains_any crlf subject) s)) (id-HasNoCr id clear)
        dated
