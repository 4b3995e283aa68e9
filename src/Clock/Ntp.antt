-- ===== src/Clock/Ntp.antt =====
-- src/ntp.rs: the packet of a query, and what is made of the reply. The numbers of type f64 are an
-- interface, and so is what the sockets do.
use hello_old.Base.{
  ℕ, zero, suc, ◌+◌, ◌*◌, ◌/◌, ◌%◌, Bool, List, [], ◌∷◌, ◌++◌, Option, none, some, ltb,
  if◌then◌else◌, take, drop, replicate, wrapping_add,
}

pub record F64 : Type 1 where
  pub Number : Type 0
  pub of_u64 : ℕ → Number
  pub one_half : Number
  pub add : Number → Number → Number
  pub sub : Number → Number → Number
  pub mul : Number → Number → Number
  pub div : Number → Number → Number
  pub abs : Number → Number
  -- `floor() as u64`.
  pub floor_u64 : Number → ℕ
  pub lt : Number → Number → Bool
  -- `CLOCK_DRIFT_LIMIT_SECONDS`.
  pub limit : Number

abbrev pub ntp_epoch_offset : ℕ
ntp_epoch_offset = 2208988800

abbrev pub ntp_frac_scale : ℕ
ntp_frac_scale = 4294967296

-- `to_be_bytes` and `from_be_bytes`.
abbrev pub to_be_bytes : ℕ → ℕ → List ℕ
to_be_bytes zero x = []
to_be_bytes (suc n) x = to_be_bytes n (x / 256) ++ x % 256 ∷ []

abbrev pub from_be_bytes : ℕ → List ℕ → ℕ
from_be_bytes acc [] = acc
from_be_bytes acc (b ∷ bytes) = from_be_bytes (acc * 256 + b) bytes

-- The packet, for the whole seconds of `t1`.
unfoldable pub packet : ℕ → List ℕ
packet t1 =
    0x1b ∷ replicate 23 0 ++ to_be_bytes 8 (wrapping_add t1 ntp_epoch_offset) ++ replicate 16 0

-- What a query meets: whether each step on the socket works, the times before and after, and the reply
-- with its length.
pub record Exchange (f : F64) : Type 0 where
  pub ready : Bool
  pub found : Bool
  pub sent : Bool
  pub reply : Option (ℕ × List ℕ)
  pub t1 : F64.Number f
  pub t2 : F64.Number f

-- The time of a server and its drift.
pub record Answer (f : F64) : Type 0 where
  pub now : F64.Number f
  pub drift : F64.Number f

abbrev pub seconds_of : List ℕ → ℕ
seconds_of buf = from_be_bytes 0 (take 4 (drop 40 buf))

abbrev pub fraction_of : List ℕ → ℕ
fraction_of buf = from_be_bytes 0 (take 4 (drop 44 buf))

module _ (f : F64) where
  unfoldable pub server_time : List ℕ → F64.Number f
  server_time buf =
      F64.add f (F64.sub f (F64.of_u64 f (seconds_of buf)) (F64.of_u64 f ntp_epoch_offset))
        (F64.div f (F64.of_u64 f (fraction_of buf)) (F64.of_u64 f ntp_frac_scale))

  unfoldable pub answer_of : Exchange f → List ℕ → Answer f
  answer_of e buf =
      let half_rtt = F64.mul f (F64.sub f e.t2 e.t1) (F64.one_half f) in
      let server_now = F64.add f (server_time buf) half_rtt in
      record { now = server_now; drift = F64.sub f server_now e.t2 }

  abbrev pub from_reply : Exchange f → Option (ℕ × List ℕ) → Option (Answer f)
  from_reply e none = none
  from_reply e (some (n, buf)) = if ltb n 48 then none else some (answer_of e buf)

  unfoldable pub query : Exchange f → Option (Answer f)
  query e =
      if e.ready
      then (if e.found then (if e.sent then from_reply e e.reply else none) else none)
      else none

  abbrev pub push_answer : Option (Answer f) → List (Answer f) → List (Answer f)
  push_answer none results = results
  push_answer (some a) results = a ∷ results

  -- What the queries of the threads give.
  unfoldable pub queried : List (Exchange f) → List (Option (Answer f))
  queried [] = []
  queried (e ∷ servers) = query e ∷ queried servers
