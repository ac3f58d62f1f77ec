-- ===== src/Streams/Server.antt =====
-- `ServerStream` of include/tinvest/streams/server_stream.hpp: its state and its handlers.
use tinkoff_invest_sdkv.Prelude.{
  Bool, true, false, if◌then◌else◌, List, [], ◌∷◌, ◌++◌, map, Option, none, some, ◌≡◌, refl, ap,
  ◌∙◌, Bool-cases, inl, inr,
}
use tinkoff_invest_sdkv.Error.{Status}

pub record ServerStream : Type 0 where
  pub worker : Bool
  pub stopping : Bool
  pub done : Bool
  pub got_data : Bool
  pub status : Status
  pub ctx : Bool

pub data ServerEffect : Type 0 where
  tries_cancel wakes_all : ServerEffect

unfoldable pub start : ServerStream → ServerStream × Bool
start s = if s.worker then (s, false) else (record s { stopping = false; worker = true }, true)

unfoldable pub stop : ServerStream → ServerStream × List ServerEffect
stop s = (
  record s { stopping = true; worker = false },
  (if s.ctx then tries_cancel ∷ [] else []) ++ wakes_all ∷ [],
)

-- The top of a round and the first critical section of `run_once`: whether a call is begun.
unfoldable pub begin_call : ServerStream → ServerStream × Bool
begin_call s =
    if s.stopping
    then (record s { got_data = false }, false)
    else (record s { got_data = false; ctx = true; done = false }, true)

unfoldable pub handle_done : ServerStream → Status → ServerStream × List ServerEffect
handle_done s status = (record s { status = status; done = true }, wakes_all ∷ [])

-- `run_once` goes on when the call is done.
unfoldable pub end_call : ServerStream → ServerStream × Status
end_call s = (record s { ctx = false }, s.status)

-- What a message leads to: the notification `connected`, and the user's callback.
pub data Delivery {ℓ} (A : Type ℓ) : Type ℓ where
  hears_connected : Delivery A
  delivers : A → Delivery A

-- The end of `handle_data`, behind the ping filter, if one is set.
unfoldable pub pass {ℓ} : {A : Type ℓ} → Option (A → Bool) → A → List (Delivery A)
pass none a = delivers a ∷ []
pass (some is_ping) a = if is_ping a then [] else delivers a ∷ []

-- `handle_data` with a data callback.
unfoldable pub handle_data {ℓ} :
    {A : Type ℓ} → Option (A → Bool) → ServerStream → A → ServerStream × List (Delivery A)
handle_data is_ping s a =
    if s.got_data
    then (s, pass is_ping a)
    else (record s { got_data = true }, hears_connected ∷ pass is_ping a)

-- The messages of one call, in their order.
unfoldable pub receive_all {ℓ} :
    {A : Type ℓ} → Option (A → Bool) → ServerStream → List A → List (Delivery A)
receive_all is_ping s [] = []
receive_all is_ping s (a ∷ xs) =
    let (t, es) = handle_data is_ping s a in es ++ receive_all is_ping t xs

-- The messages that are no pings.
unfoldable pub payload {ℓ} : {A : Type ℓ} → Option (A → Bool) → List A → List A
payload none xs = xs
payload (some is_ping) [] = []
payload (some is_ping) (a ∷ xs) =
    let rest = payload (some is_ping) xs in if is_ping a then rest else a ∷ rest

handle_data_later {ℓ} :
    {A : Type ℓ} (is_ping : Option (A → Bool)) (s : ServerStream) (a : A)
    → s.got_data ≡ true
    → handle_data is_ping s a ≡ (s, pass is_ping a)
unfolding handle_data
handle_data_later is_ping s a h =
    ap
      (λ b.
        if b
        then (s, pass is_ping a)
        else (record s { got_data = true }, hears_connected ∷ pass is_ping a))
      h

pass-payload {ℓ} :
    {A : Type ℓ} (is_ping : Option (A → Bool)) (a : A) (xs : List A)
    → pass is_ping a ++ map delivers (payload is_ping xs) ≡ map delivers (payload is_ping (a ∷ xs))
unfolding pass payload
pass-payload none a [] = refl
pass-payload none a (x ∷ xs) = refl
pass-payload (some is_ping) a xs = elim (Bool-cases (is_ping a)) [
  | inl t ↦ rw t refl
  | inr t ↦ rw t refl
]

receive_rest {ℓ} :
    {A : Type ℓ} (is_ping : Option (A → Bool)) (s : ServerStream) (xs : List A)
    → s.got_data ≡ true
    → receive_all is_ping s xs ≡ map delivers (payload is_ping xs)
unfolding receive_all payload
receive_rest none s [] h = refl
receive_rest (some is_ping) s [] h = refl
receive_rest is_ping s (a ∷ xs) h =
    ap (λ p. p.1 ++ receive_all is_ping p.0 xs) (handle_data_later is_ping s a h)
    ∙ ap (λ es. pass is_ping a ++ es) (receive_rest is_ping s xs h)
    ∙ pass-payload is_ping a xs

receive_first {ℓ} :
    {A : Type ℓ} (is_ping : Option (A → Bool)) (s : ServerStream) (x : A) (xs : List A)
    → s.got_data ≡ false
    → receive_all is_ping s (x ∷ xs)
      ≡ hears_connected ∷ receive_all is_ping (record s { got_data = true }) (x ∷ xs)
unfolding receive_all handle_data
receive_first is_ping s x xs h = rw h refl

-- A call on which messages come notifies `connected` once, before all else, also when the first
-- message is a ping; and the user gets every message that is no ping, once and in order.
pub receive_all_lem {ℓ} :
    {A : Type ℓ} (is_ping : Option (A → Bool)) (s : ServerStream) (x : A) (xs : List A)
    → receive_all is_ping (begin_call s).0 (x ∷ xs)
      ≡ hears_connected ∷ map delivers (payload is_ping (x ∷ xs))
receive_all_lem is_ping s x xs =
    receive_first is_ping (begin_call s).0 x xs (no_data s)
    ∙ ap (λ es. hears_connected ∷ es)
        (receive_rest is_ping (record (begin_call s).0 { got_data = true }) (x ∷ xs) refl)
  where
    no_data : (s : ServerStream) → (begin_call s).0.got_data ≡ false
    no_data s = elim (Bool-cases s.stopping) [
      | inl t ↦ unfold begin_call in (rw t refl)
      | inr t ↦ unfold begin_call in (rw t refl)
    ]
