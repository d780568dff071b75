-- ===== src/Github/Client/Schedule.antt =====
-- Concurrent mints on one client (github/client.go): every critical section is one step, and steps of
-- different calls come in any order. `Flight` is a call between its first and last critical section.
use packages_go.Prelude.{
  ℕ, ◌+◌, ◌≤◌, ◌≡◌, ◌≢◌, refl, ◌∙◌, List, [], ◌∷◌, ◌++◌, none, Bytes, length, length-append, arith,
}
use packages_go.Errors.{Result, ok, err, GoError}
use packages_go.Github.Codes.{Code}
use packages_go.Github.Client.{
  Client, Config, Token, Request, Readings, reserved, request_key, reserve, settle, new,
}
use packages_go.Github.Client.Fresh.{record_rate_limit}

pub record Flight : Type 0 where
  pub request : Request
  pub armed_at : ℕ

-- The client, the calls that have still to post, those that have posted and have still to settle, and
-- the number of posts so far.
pub record World : Type 0 where
  pub client : Client
  pub waiting : List Flight
  pub posted : List Flight
  pub posts : ℕ

pub data Step (w : World) : World → Type 0 where
  -- a call whose first critical section reserves a mint
  reserves :
      (r : Request) (now : Readings) (armed_at : ℕ)
      → (reserve (request_key r) now w.client).0 ≡ reserved armed_at
      → Step w (record w {
        client = (reserve (request_key r) now w.client).1;
        waiting = record { request = r; armed_at = armed_at } ∷ w.waiting;
      })
  -- a call that its first critical section answers
  answers :
      (r : Request) (now : Readings)
      → ((armed_at : ℕ) → (reserve (request_key r) now w.client).0 ≢ reserved armed_at)
      → Step w (record w { client = (reserve (request_key r) now w.client).1 })
  -- a reserved call sends its request
  sends :
      (before after : List Flight) (f : Flight)
      → w.waiting ≡ before ++ (f ∷ after)
      → Step w (record w { waiting = before ++ after; posted = f ∷ w.posted; posts = w.posts + 1 })
  -- an answer's rate-limit header is recorded
  records :
      (remaining : Bytes) → Step w (record w { client = record_rate_limit remaining w.client })
  -- a call that has not posted, or whose post was answered, settles
  gives_up :
      (before after : List Flight) (f : Flight) (e : GoError Code)
      → w.waiting ≡ before ++ (f ∷ after)
      → Step w (record w {
        client = settle (request_key f.request) f.armed_at (err e) w.client;
        waiting = before ++ after;
      })
  settles :
      (before after : List Flight) (f : Flight) (outcome : Result Code Token)
      → w.posted ≡ before ++ (f ∷ after)
      → Step w (record w {
        client = settle (request_key f.request) f.armed_at outcome w.client;
        posted = before ++ after;
      })

pub data Reach (s : World) : World → Type 0 where
  here : Reach s s
  next : {t u : World} → Reach s t → Step t u → Reach s u

-- A client before its first call.
abbrev pub idle : Client → World
idle c = record { client = c; waiting = []; posted = []; posts = 0 }

record Inv (w : World) : Type 0 where
  counted : w.posts + length w.waiting ≤ w.client.calls_made
  bounded : w.client.calls_made ≤ w.client.call_budget

calls_made-reserve :
    (k : Bytes) (now : Readings) (c : Client)
    → c.calls_made ≤ c.call_budget
    → (c.calls_made ≤ (reserve k now c).1.calls_made)
      × ((reserve k now c).1.calls_made ≤ c.call_budget)
      × ((reserve k now c).1.call_budget ≡ c.call_budget)
unfolding reserve
calls_made-reserve k now c h = ground arith

calls_made-reserved :
    (k : Bytes) (now : Readings) (c : Client) (armed_at : ℕ)
    → (reserve k now c).0 ≡ reserved armed_at
    → (reserve k now c).1.calls_made ≡ c.calls_made + 1
unfolding reserve
calls_made-reserved k now c armed_at e = ground arith

calls_made-settle :
    (k : Bytes) (armed_at : ℕ) (outcome : Result Code Token) (c : Client)
    → ((settle k armed_at outcome c).calls_made ≡ c.calls_made)
      × ((settle k armed_at outcome c).call_budget ≡ c.call_budget)
unfolding settle
calls_made-settle k armed_at (ok t) c = (refl, refl)
calls_made-settle k armed_at (err e) c = ground arith

calls_made-record_rate_limit :
    (s : Bytes) (c : Client)
    → ((record_rate_limit s c).calls_made ≡ c.calls_made)
      × ((record_rate_limit s c).call_budget ≡ c.call_budget)
unfolding record_rate_limit
calls_made-record_rate_limit s c = ground arith

length-split :
    (l before after : List Flight) (f : Flight)
    → l ≡ before ++ (f ∷ after)
    → length l ≡ length (before ++ after) + 1
length-split l before after f e =
    rw e (omega (arith, length-append before (f ∷ after), length-append before after))

Step-Inv : {w v : World} → Step w v → Inv w → Inv v
Step-Inv {w} (reserves r now armed_at e) h = ground (
  arith,
  calls_made-reserve (request_key r) now w.client h.bounded,
  calls_made-reserved (request_key r) now w.client armed_at e,
)
Step-Inv {w} (answers r now e) h =
    ground (arith, calls_made-reserve (request_key r) now w.client h.bounded)
Step-Inv {w} (sends before after f e) h = ground (arith, length-split w.waiting before after f e)
Step-Inv {w} (records s) h = ground (arith, calls_made-record_rate_limit s w.client)
Step-Inv {w} (gives_up before after f x e) h = ground (
  arith,
  length-split w.waiting before after f e,
  calls_made-settle (request_key f.request) f.armed_at (err x) w.client,
)
Step-Inv {w} (settles before after f outcome e) h =
    ground (arith, calls_made-settle (request_key f.request) f.armed_at outcome w.client)

call_budget-Step : {w v : World} → Step w v → v.client.call_budget ≡ w.client.call_budget
unfolding reserve
call_budget-Step {w} (reserves r now armed_at e) = ground arith
call_budget-Step {w} (answers r now e) = ground arith
call_budget-Step {w} (sends before after f e) = refl
call_budget-Step {w} (records s) = (calls_made-record_rate_limit s w.client).1
call_budget-Step {w} (gives_up before after f x e) =
    (calls_made-settle (request_key f.request) f.armed_at (err x) w.client).1
call_budget-Step {w} (settles before after f outcome e) =
    (calls_made-settle (request_key f.request) f.armed_at outcome w.client).1

Reach-Inv : {s w : World} → Inv s → Reach s w → Inv w
Reach-Inv h here = h
Reach-Inv h (next r st) = Step-Inv st (Reach-Inv h r)

call_budget-Reach : {s w : World} → Reach s w → w.client.call_budget ≡ s.client.call_budget
call_budget-Reach here = refl
call_budget-Reach (next r st) = call_budget-Step st ∙ call_budget-Reach r

-- However the calls on a new client are interleaved, the posts to GitHub never pass the call budget.
pub posts-le-call_budget :
    (config : Config) (c : Client) (w : World)
    → new config none ≡ ok c
    → Reach (idle c) w
    → w.posts ≤ c.call_budget
unfolding new
posts-le-call_budget config c w e r =
    let start : Inv (idle c) = record { counted = ground arith; bounded = ground arith } in
    let reached = Reach-Inv start r in
    omega (arith, reached.counted, reached.bounded, call_budget-Reach r)
