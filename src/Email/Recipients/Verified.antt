-- ===== src/Email/Recipients/Verified.antt =====
-- When verifyAllRecipientsAccepted of email/client.go returns nil.
use mathlib.Core.List.{Memᴰ}
use packages_go.Prelude.{
  ◌≡◌, ◌↔◌, refl, sym, ◌∙◌, ap, ◌⊎◌, inl, inr, Bool, true, false, ◌&&◌, ◌||◌, List, [], ◌∷◌, ◌++◌,
  Option, none, some, Bytes, bytes_eq, bytes_eq_iff, is_empty, All, if◌then◌else◌, Bool-cases,
  or_true, and_false, and_swap, and_split, or_split,
}
use packages_go.Email.{recipients}
use packages_go.Email.Recipients.{
  SendResult, has, Verdict, bounced, suppressed, accepted, unaccepted, verdict_of, Dropped,
  drop_one, sort_out, verify_all_recipients_accepted,
}

has→Memᴰ : (xs : List Bytes) (r : Bytes) → has xs r ≡ true → Memᴰ r xs
unfolding has
has→Memᴰ [] r h = cc
has→Memᴰ (x ∷ xs) r h = elim (Bool-cases (bytes_eq x r)) [
  | inl e ↦ Memᴰ.head (sym ((bytes_eq_iff x r).0 e))
  | inr e ↦ Memᴰ.tail (has→Memᴰ xs r (rw e at h))
]

Memᴰ→has : (xs : List Bytes) (r : Bytes) → Memᴰ r xs → has xs r ≡ true
unfolding has
Memᴰ→has [] r m = elim m [ ]
Memᴰ→has (x ∷ xs) r (Memᴰ.head e) = rw ((bytes_eq_iff x r).1 (sym e)) refl
Memᴰ→has (x ∷ xs) r (Memᴰ.tail m) = let h = Memᴰ→has xs r m in rw h (or_true (bytes_eq x r))

-- What it takes to accept a recipient: a result that reports it delivered or queued, and neither
-- bounced nor suppressed.
abbrev pub IsAccepted : Option SendResult → Bytes → Type 0
IsAccepted none r = ⊥
IsAccepted (some s) r =
    (Memᴰ r s.delivered ⊎ Memᴰ r s.queued)
    × (¬ Memᴰ r s.permanent_bounces)
    × (¬ Memᴰ r s.suppressed_recipients)

abbrev is_accepted : Verdict → Bool
is_accepted accepted = true
is_accepted _ = false

abbrev none_dropped : Dropped → Bool
none_dropped d = is_empty d.bounced_out && (is_empty d.suppressed_out && is_empty d.unaccepted_out)

is_empty-append : {A : Type 0} (xs : List A) (x : A) → is_empty (xs ++ x ∷ []) ≡ false
is_empty-append [] x = refl
is_empty-append (y ∷ xs) x = refl

none_dropped-drop_one :
    (v : Verdict) (r : Bytes) (d : Dropped)
    → none_dropped (drop_one v r d) ≡ (is_accepted v && none_dropped d)
none_dropped-drop_one bounced r d = rw (is_empty-append d.bounced_out r) refl
none_dropped-drop_one suppressed r d =
    rw (is_empty-append d.suppressed_out r) (and_false (is_empty d.bounced_out))
none_dropped-drop_one accepted r d = refl
none_dropped-drop_one unaccepted r d = rw (is_empty-append d.unaccepted_out r) (
    ap (λ b. is_empty d.bounced_out && b) (and_false (is_empty d.suppressed_out))
    ∙ and_false (is_empty d.bounced_out))

abbrev all_accepted : Option SendResult → List Bytes → Bool
all_accepted result [] = true
all_accepted result (r ∷ rs) = is_accepted (verdict_of result r) && all_accepted result rs

none_dropped-sort_out :
    (result : Option SendResult) (rs : List Bytes) (d : Dropped)
    → none_dropped (sort_out result rs d) ≡ (all_accepted result rs && none_dropped d)
unfolding sort_out
none_dropped-sort_out result [] d = refl
none_dropped-sort_out result (r ∷ rs) d =
    none_dropped-sort_out result rs (drop_one (verdict_of result r) r d)
    ∙ ap (λ b. all_accepted result rs && b) (none_dropped-drop_one (verdict_of result r) r d)
    ∙ and_swap (all_accepted result rs) (is_accepted (verdict_of result r)) (none_dropped d)

abbrev chosen : Bool → Bool → Bool → Verdict
chosen b s a = if b then bounced else if s then suppressed else if a then accepted else unaccepted

chosen-accepted :
    (b s a : Bool) → is_accepted (chosen b s a) ≡ true → (b ≡ false) × (s ≡ false) × (a ≡ true)
chosen-accepted true s a h = cc
chosen-accepted false true a h = cc
chosen-accepted false false true h = (refl, refl, refl)
chosen-accepted false false false h = cc

absent : (xs : List Bytes) (r : Bytes) → has xs r ≡ false → ¬ Memᴰ r xs
absent xs r h m = let k = Memᴰ→has xs r m in cc

absent_has : (xs : List Bytes) (r : Bytes) → ¬ Memᴰ r xs → has xs r ≡ false
absent_has xs r n = elim (Bool-cases (has xs r)) [
  | inl e ↦ absurd (n (has→Memᴰ xs r e))
  | inr e ↦ e
]

verdict_of_sound :
    (result : Option SendResult) (r : Bytes)
    → is_accepted (verdict_of result r) ≡ true
    → IsAccepted result r
unfolding verdict_of
verdict_of_sound none r h = cc
verdict_of_sound (some s) r h =
    let (b, u, a) =
      chosen-accepted (has s.permanent_bounces r) (has s.suppressed_recipients r)
        (has s.delivered r || has s.queued r) h in
    let m : Memᴰ r s.delivered ⊎ Memᴰ r s.queued =
      elim (or_split (has s.delivered r) (has s.queued r) a) [
        | inl d ↦ inl (has→Memᴰ s.delivered r d)
        | inr q ↦ inr (has→Memᴰ s.queued r q)
      ] in
    (m, absent s.permanent_bounces r b, absent s.suppressed_recipients r u)

verdict_of_complete :
    (result : Option SendResult) (r : Bytes)
    → IsAccepted result r
    → is_accepted (verdict_of result r) ≡ true
unfolding verdict_of
verdict_of_complete none r a = elim a [ ]
verdict_of_complete (some s) r (inl m, b, u) =
    rw
      (
        absent_has s.permanent_bounces r b,
        absent_has s.suppressed_recipients r u,
        Memᴰ→has s.delivered r m,
      )
      refl
verdict_of_complete (some s) r (inr m, b, u) =
    rw
      (
        absent_has s.permanent_bounces r b,
        absent_has s.suppressed_recipients r u,
        Memᴰ→has s.queued r m,
        or_true (has s.delivered r),
      )
      refl

all_accepted_sound :
    (result : Option SendResult) (rs : List Bytes)
    → all_accepted result rs ≡ true
    → All (IsAccepted result) rs
all_accepted_sound result [] h = tt
all_accepted_sound result (r ∷ rs) h =
    let (a, k) = and_split (is_accepted (verdict_of result r)) (all_accepted result rs) h in
    (verdict_of_sound result r a, all_accepted_sound result rs k)

all_accepted_complete :
    (result : Option SendResult) (rs : List Bytes)
    → All (IsAccepted result) rs
    → all_accepted result rs ≡ true
all_accepted_complete result [] h = refl
all_accepted_complete result (r ∷ rs) (a, h) =
    rw (verdict_of_complete result r a, all_accepted_complete result rs h) refl

-- The nil error is returned exactly when there is a result that reports each requested recipient
-- delivered or queued, and neither bounced nor suppressed.
pub verify_all_recipients_accepted_iff :
    (requested : List Bytes) (result : Option SendResult)
    → (verify_all_recipients_accepted requested result ≡ none) ↔ All (IsAccepted result) requested
unfolding verify_all_recipients_accepted
verify_all_recipients_accepted_iff requested result =
    let start : Dropped = record { bounced_out = []; suppressed_out = []; unaccepted_out = [] } in
    let e : none_dropped (sort_out result requested start)
        ≡ (all_accepted result requested && true) =
      none_dropped-sort_out result requested start in
    elim (Bool-cases (all_accepted result requested)) [
      | inl a ↦ (λ h. all_accepted_sound result requested a, λ h. rw (e, a) refl)
      | inr a ↦ (
        λ h.
            let f : none_dropped (sort_out result requested start) ≡ false = e ∙ rw a refl in
            absurd (cc (h, f)),
        λ h. absurd (let k = all_accepted_complete result requested h in cc),
      )
    ]

-- The error, when there is one, is a RecipientError.
pub verify_all_recipients_accepted-cases :
    (requested : List Bytes) (result : Option SendResult)
    → (verify_all_recipients_accepted requested result ≡ none)
      ⊎ ((b s u : List Bytes) × (verify_all_recipients_accepted requested result
            ≡ some (recipients b s u)))
unfolding verify_all_recipients_accepted
verify_all_recipients_accepted-cases requested result =
    let d =
      sort_out result requested
        (record { bounced_out = []; suppressed_out = []; unaccepted_out = [] }) in
    elim (Bool-cases (none_dropped d)) [
      | inl e ↦ inl (rw e refl)
      | inr e ↦ inr (d.bounced_out, d.suppressed_out, d.unaccepted_out, rw e refl)
    ]
