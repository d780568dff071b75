-- ===== src/Email/Client/Evidence.antt =====
-- What the results of SendWithMessageID of email/client.go rest on.
use packages_go.Prelude.{
  ℕ, ◌≡◌, refl, Bool, true, false, ◌&&◌, ◌||◌, List, [], ◌∷◌, Option, none, some, Bytes, All,
  Bool-cases, Option-cases, inl, inr, take, ltb, leb, ◌==◌, arith, ℤ, ==_iff,
}
use packages_go.Email.{
  is_unsubmitted, is_rate_limited, is_unsubmitted_transport_error, Outcome, ok, err,
}
use packages_go.Email.Recipients.{SendResult, verify_all_recipients_accepted}
use packages_go.Email.Recipients.Verified.{
  IsAccepted, verify_all_recipients_accepted_iff, verify_all_recipients_accepted-cases,
}
use packages_go.Email.Client.{
  Config, Post, Response, Reply, broken, answered, Envelope, is_valid, accepted_verdict,
  read_envelope, read_response, read_reply, post_of, send_with_message_id,
}

abbrev pub unsent : Outcome Bytes → Bool
unsent (ok id) = false
unsent (err e) = is_unsubmitted e

abbrev pub limited : Outcome Bytes → Bool
limited (ok id) = false
limited (err e) = is_rate_limited e

abbrev pub says_false : Option Envelope → Bool
says_false none = false
says_false (some e) = elim e.success [ some false ↦ true | _ ↦ false ]

module _ (decode : Bytes → Option Envelope) (until : Bytes → Option ℤ) where
  -- Replies that show that nothing was submitted: the connection was never made, the limit on the
  -- rate of requests, or a whole answer below 500 that says success: false.
  abbrev pub shows_unsent : Reply → Bool
  shows_unsent (broken e) = is_unsubmitted_transport_error e
  shows_unsent (answered r) =
      (r.status == 429)
      || (ltb r.status 500 && (r.whole && says_false (decode (take 1048576 r.body))))

  -- The whole answer 200, success: true, that reports each recipient delivered or queued and neither
  -- bounced nor suppressed.
  abbrev pub Confirms : List Bytes → Reply → Type 0
  Confirms to (broken e) = ⊥
  Confirms to (answered r) =
      (r.status ≡ 200)
      × (r.whole ≡ true)
      × (e : Envelope) × (decode (take 1048576 r.body) ≡ some e)
      × (e.success ≡ some true)
      × All (IsAccepted e.result) to

  verify-unsent :
      (to : List Bytes) (id : Bytes) (result : Option SendResult)
      → unsent (accepted_verdict decode until id (verify_all_recipients_accepted to result)) ≡ false
  unfolding is_unsubmitted
  verify-unsent to id result = elim (verify_all_recipients_accepted-cases to result) [
    | inl e ↦ rw e refl
    | inr (b, s, u, e) ↦ rw e refl
  ]

  read_envelope-unsent :
      (to : List Bytes) (id : Bytes) (status : ℕ) (e : Envelope)
      → unsent (read_envelope decode until to id status e) ≡ says_false (some e)
  unfolding read_envelope is_unsubmitted
  read_envelope-unsent to id status e = elim (Option-cases e.success) [
    | inl k ↦ rw k refl
    | inr (true, k) ↦ elim (Bool-cases (status == 200)) [
      | inl l ↦ rw (k, l) (verify-unsent to id e.result)
      | inr l ↦ rw (k, l) refl
    ]
    | inr (false, k) ↦ rw k refl
  ]

  read_response-unsent :
      (to : List Bytes) (id : Bytes) (r : Response)
      → unsent (read_response decode until to id r) ≡ shows_unsent (answered r)
  unfolding read_response is_unsubmitted
  read_response-unsent to id r = elim (Bool-cases (r.status == 429)) [
    | inl e ↦ rw e refl
    | inr e ↦ elim (Bool-cases (leb 500 r.status)) [
      | inl k ↦ let l : ltb r.status 500 ≡ false = ground arith in rw (e, k, l) refl
      | inr k ↦
          let l : ltb r.status 500 ≡ true = ground arith in
          elim (Bool-cases r.whole) [
            | inr m ↦ rw (e, k, l, m) refl
            | inl m ↦ elim (Option-cases (decode (take 1048576 r.body))) [
              | inl n ↦ rw (e, k, l, m, n) refl
              | inr (env, n) ↦ rw (e, k, l, m, n) (read_envelope-unsent to id r.status env)
            ]
          ]
    ]
  ]

  read_reply-unsent :
      (to : List Bytes) (id : Bytes) (reply : Reply)
      → unsent (read_reply decode until to id reply) ≡ shows_unsent reply
  unfolding read_reply is_unsubmitted
  read_reply-unsent to id (broken e) = elim (Bool-cases (is_unsubmitted_transport_error e)) [
    | inl k ↦ rw k refl
    | inr k ↦ rw k refl
  ]
  read_reply-unsent to id (answered r) = read_response-unsent to id r

  read_envelope-ok :
      (to : List Bytes) (id sent : Bytes) (status : ℕ) (e : Envelope)
      → read_envelope decode until to id status e ≡ ok sent
      → (sent ≡ id) × (status ≡ 200) × (e.success ≡ some true) × All (IsAccepted e.result) to
  unfolding read_envelope
  read_envelope-ok to id sent status e h = elim (Option-cases e.success) [
    | inl k ↦ absurd (cc (h, k))
    | inr (false, k) ↦ absurd (cc (h, k))
    | inr (true, k) ↦ elim (Bool-cases (status == 200)) [
      | inr l ↦ absurd (cc (h, k, l))
      | inl l ↦ elim (verify_all_recipients_accepted-cases to e.result) [
        | inr (b, u, v, m) ↦ absurd (cc (h, k, l, m))
        | inl m ↦
            let same : ok id ≡ ok sent = rw (k, l, m) at h in
            (cc, (==_iff status 200).0 l, k, (verify_all_recipients_accepted_iff to e.result).0 m)
      ]
    ]
  ]

  read_response-Confirms :
      (to : List Bytes) (id sent : Bytes) (r : Response)
      → read_response decode until to id r ≡ ok sent
      → (sent ≡ id) × Confirms to (answered r)
  unfolding read_response read_envelope
  read_response-Confirms to id sent r h = elim (Bool-cases (r.status == 429)) [
    | inl e ↦ absurd (cc (h, e))
    | inr e ↦ elim (Bool-cases (leb 500 r.status)) [
      | inl k ↦ absurd (cc (h, e, k))
      | inr k ↦ elim (Bool-cases r.whole) [
        | inr m ↦ absurd (cc (h, e, k, m))
        | inl m ↦ elim (Option-cases (decode (take 1048576 r.body))) [
          | inl n ↦ absurd (cc (h, e, k, m, n))
          | inr (env, n) ↦
              let (same, ok_status, said, all) =
                read_envelope-ok to id sent r.status env (rw (e, k, m, n) at h) in
              let confirmed : Confirms to (answered r) = (ok_status, m, env, n, said, all) in
              (same, confirmed)
        ]
      ]
    ]
  ]

  read_reply-Confirms :
      (to : List Bytes) (id sent : Bytes) (reply : Reply)
      → read_reply decode until to id reply ≡ ok sent
      → (sent ≡ id) × Confirms to reply
  unfolding read_reply
  read_reply-Confirms to id sent (broken e) h =
      elim (Bool-cases (is_unsubmitted_transport_error e)) [
        | inl k ↦ absurd (cc (h, k))
        | inr k ↦ absurd (cc (h, k))
      ]
  read_reply-Confirms to id sent (answered r) h = read_response-Confirms to id sent r h

  module _ (exchange : Post → Reply) (c : Config) (to : List Bytes)
      (subject body id date : Bytes) where
    abbrev posted : Post
    posted = post_of decode until c to subject body id date

    -- A call that returns an ID returns the one given, has made exactly one post, and was answered 200
    -- with success: true and each requested recipient delivered or queued, and none of them bounced
    -- or suppressed.
    pub send_with_message_id-Confirms :
        (sent : Bytes)
        → (send_with_message_id decode until exchange c to subject body id date).0 ≡ ok sent
        → (sent ≡ id)
          × ((send_with_message_id decode until exchange c to subject body id date).1
              ≡ post_of decode until c to subject body id date ∷ [])
          × Confirms to (exchange (post_of decode until c to subject body id date))
    unfolding send_with_message_id
    send_with_message_id-Confirms sent h = elim (Bool-cases (is_valid to subject body id)) [
      | inr e ↦ absurd (cc (h, e))
      | inl e ↦
          let (same, confirmed) = read_reply-Confirms to id sent (exchange posted) (rw e at h) in
          (same, rw e refl, confirmed)
    ]

    -- The error of a call satisfies IsUnsubmitted exactly when the mail passed the checks and the reply
    -- to its post shows that nothing was submitted: the connection was never made, the status is 429,
    -- or a whole answer below 500 says success: false.
    pub send_with_message_id-unsent :
        unsent (send_with_message_id decode until exchange c to subject body id date).0 ≡ (
          is_valid to subject body id
          && shows_unsent (exchange (post_of decode until c to subject body id date)))
    unfolding send_with_message_id is_unsubmitted
    send_with_message_id-unsent = elim (Bool-cases (is_valid to subject body id)) [
      | inr e ↦ rw e refl
      | inl e ↦ rw e (read_reply-unsent to id (exchange posted))
    ]
