-- ===== src/Email/Message/Headers.antt =====
-- The header lines that a receiver finds in a message of buildRawMessage of email/client.go.
use packages_go.Prelude.{
  ℕ, ◌≡◌, ◌≢◌, refl, sym, ◌∙◌, ap, Bool, true, false, List, [], ◌∷◌, ◌++◌, append_assoc, append-nil,
  Bytes, codes, All, All-append, ◌==◌, is_empty, arith, contains_any, contains_byte,
}
use packages_go.Email.Message.{line, join_comma, header_lines, write_lines, build_raw_message}

abbrev pub HasNoCr : Bytes → Type 0
HasNoCr s = All (λ (c : ℕ). c ≢ b'\r') s

-- The end of a line: an empty one ends the headers.
abbrev end_line : Bool → Bytes → Bytes → List Bytes × Bytes → List Bytes × Bytes
end_line true current rest later = ([], rest)
end_line false current rest later = (current ∷ later.0, later.1)

-- A receiver's reading of a message: the lines up to the first empty one, each ended by CRLF, and
-- what follows it. `current` is the line read so far, and `cr` is whether a CR was read after it.
unfoldable pub read_headers : Bytes → Bool → Bytes → List Bytes × Bytes
read_headers current cr [] = ([], current)
read_headers current false (c ∷ s) = elim (c == b'\r') [
  | true ↦ read_headers current true s
  | false ↦ read_headers (current ++ c ∷ []) false s
]
read_headers current true (c ∷ s) = elim (c == b'\n') [
  | false ↦ read_headers (current ++ b'\r' ∷ c ∷ []) (c == b'\r') s
  | true ↦ end_line (is_empty current) current s (read_headers [] false s)
]

read_headers-crlf :
    (current rest : Bytes)
    → read_headers current false (line [] rest)
      ≡ end_line (is_empty current) current rest (read_headers [] false rest)
unfolding read_headers
read_headers-crlf current rest = refl

read_headers-cons :
    (current : Bytes) (c : ℕ) (s : Bytes)
    → c ≢ b'\r'
    → read_headers current false (c ∷ s) ≡ read_headers (current ++ c ∷ []) false s
unfolding read_headers
read_headers-cons current c s h =
    let n : (c == b'\r') ≡ false = ground arith in rw (n, read_headers) refl

read_headers-line :
    (current s rest : Bytes)
    → HasNoCr s
    → is_empty (current ++ s) ≡ false
    → read_headers current false (line s rest)
      ≡ ((current ++ s) ∷ (read_headers [] false rest).0, (read_headers [] false rest).1)
unfolding read_headers
read_headers-line current [] rest h e =
    let k : is_empty current ≡ false = ap is_empty (sym (append-nil current)) ∙ e in
    read_headers-crlf current rest
    ∙ ap (λ b. end_line b current rest (read_headers [] false rest)) k
    ∙ ap (λ (l : Bytes). (l ∷ (read_headers [] false rest).0, (read_headers [] false rest).1))
        (sym (append-nil current))
read_headers-line current (c ∷ s) rest (h, k) e =
    let a : (current ++ c ∷ []) ++ s ≡ current ++ c ∷ s = append_assoc current (c ∷ []) s in
    read_headers-cons current c (line s rest) h
    ∙ read_headers-line (current ++ c ∷ []) s rest k (ap is_empty a ∙ e)
    ∙ ap (λ (l : Bytes). (l ∷ (read_headers [] false rest).0, (read_headers [] false rest).1)) a

read_headers-write_lines :
    (ls : List Bytes) (body : Bytes)
    → All (λ (l : Bytes). HasNoCr l × (is_empty l ≡ false)) ls
    → read_headers [] false (write_lines ls (line [] body)) ≡ (ls, body)
read_headers-write_lines [] body h = read_headers-crlf [] body
read_headers-write_lines (l ∷ ls) body ((h, e), k) =
    read_headers-line [] l (write_lines ls (line [] body)) h e
    ∙ ap (λ (o : List Bytes × Bytes). (l ∷ o.0, o.1)) (read_headers-write_lines ls body k)

HasNoCr-join_comma : (to : List Bytes) → All HasNoCr to → HasNoCr (join_comma to)
unfolding join_comma
HasNoCr-join_comma [] h = tt
HasNoCr-join_comma (a ∷ []) (h, k) = h
HasNoCr-join_comma (a ∷ b ∷ rest) (h, k) =
    let later : HasNoCr (join_comma (b ∷ rest)) = HasNoCr-join_comma (b ∷ rest) k in
    let spaced : HasNoCr (b' ' ∷ join_comma (b ∷ rest)) = (omega arith, later) in
    All-append (λ (c : ℕ). c ≢ b'\r') a (b',' ∷ b' ' ∷ join_comma (b ∷ rest)) h
      (omega arith, spaced)

abbrev IsLine : Bytes → Type 0
IsLine l = HasNoCr l × (is_empty l ≡ false)

-- The lines that do not depend on the mail.
abbrev fixed_lines : List Bytes
fixed_lines =
    codes "MIME-Version: 1.0"
    ∷ codes "Content-Type: text/plain; charset=utf-8"
    ∷ codes "Content-Transfer-Encoding: 8bit"
    ∷ []

fixed_lines-IsLine : All IsLine fixed_lines
fixed_lines-IsLine =
    let f1 : All IsLine (codes "Content-Transfer-Encoding: 8bit" ∷ []) =
      ((omega arith, refl), tt) in
    let f2 : All IsLine (
        codes "Content-Type: text/plain; charset=utf-8"
        ∷ codes "Content-Transfer-Encoding: 8bit"
        ∷ []) =
      ((omega arith, refl), f1) in
    ((omega arith, refl), f2)

-- A message whose From, recipients, Subject, Message-ID and date hold no CR has exactly the eight
-- header lines that the code writes, and its body is the rest: none of those texts adds a header or
-- ends the headers.
pub build_raw_message-headers :
    (from : Bytes) (to : List Bytes) (subject body message_id date : Bytes)
    → HasNoCr from
    → All HasNoCr to
    → HasNoCr subject
    → HasNoCr message_id
    → HasNoCr date
    → read_headers [] false (build_raw_message from to subject body message_id date)
      ≡ (header_lines from to subject message_id date, body)
unfolding build_raw_message
build_raw_message-headers from to subject body message_id date f t s m d =
    let clear = All-append (λ (c : ℕ). c ≢ b'\r') in
    let dated = codes "Date: " ++ date in
    let identified = codes "Message-ID: <" ++ (message_id ++ codes ">") in
    let about = codes "Subject: " ++ subject in
    let addressed = codes "To: " ++ join_comma to in
    let l1 : All IsLine (dated ∷ fixed_lines) =
      ((clear (codes "Date: ") date (omega arith) d, refl), fixed_lines-IsLine) in
    let l2 : All IsLine (identified ∷ dated ∷ fixed_lines) = (
      (
        clear (codes "Message-ID: <") (message_id ++ codes ">") (omega arith)
            (clear message_id (codes ">") m (omega arith)),
        refl,
      ),
      l1,
    ) in
    let l3 : All IsLine (about ∷ identified ∷ dated ∷ fixed_lines) =
      ((clear (codes "Subject: ") subject (omega arith) s, refl), l2) in
    let l4 : All IsLine (addressed ∷ about ∷ identified ∷ dated ∷ fixed_lines) =
      ((clear (codes "To: ") (join_comma to) (omega arith) (HasNoCr-join_comma to t), refl), l3) in
    read_headers-write_lines (header_lines from to subject message_id date) body
      ((clear (codes "From: ") from (omega arith) f, refl), l4)

-- What ContainsAny finds free of CR and LF has no CR.
pub contains_any-HasNoCr : (s : Bytes) → contains_any (b'\r' ∷ b'\n' ∷ []) s ≡ false → HasNoCr s
unfolding contains_any contains_byte
contains_any-HasNoCr [] h = tt
contains_any-HasNoCr (c ∷ s) h = (ground arith, contains_any-HasNoCr s (ground arith))
