-- ===== src/Client/Replugged.antt =====
-- client/wait.c, and the wait for the server's end of client/alsa.c: the card goes and comes back.
use Prim.Native.String.{String}
use text.Mathlib.Text.{◌==◌ as str_eq}
use fcp_support.Base.{
  ℕ, zero, suc, ◌+◌, ◌-◌, ◌≤◌, List, [], ◌∷◌, Bool, false, Option, none, some, ◌≡◌, ℤ, pos, negsuc,
  leb, ◌⊎◌, ltb, take, if◌then◌else◌,
}
use fcp_support.Client.{
  SoundCard, ReadEvent, again, failed, eof, got, Selected, interrupted, broken, nothing, message,
}

-- What a look at the cards meets: the time, the cards, and the serial number of a card's number.
pub record Poll : Type 0 where
  pub now : ℕ
  pub cards : List SoundCard
  pub serial_of : ℕ → Option String

abbrev is_serial : String → Option String → Bool
is_serial serial none = false
is_serial serial (some s) = str_eq s serial

unfoldable pub match_serial : String → (ℕ → Option String) → List SoundCard → Option SoundCard
match_serial serial serial_of [] = none
match_serial serial serial_of (c ∷ cs) =
    let rest = match_serial serial serial_of cs in
    if is_serial serial (serial_of c.card_num) then some c else rest

-- `find_by_serial`
unfoldable pub find_by_serial : String → Poll → Option SoundCard
unfolding match_serial
find_by_serial serial p = match_serial serial p.serial_of p.cards

abbrev pub or_else : {A : Type 0} → Option A → Option A → Option A
or_else none b = b
or_else (some a) b = some a

abbrev pub or_wait : Option SoundCard → Option (Option SoundCard) → Option (Option SoundCard)
or_wait none rest = rest
or_wait (some c) rest = some (some c)

-- The loop of `wait_for_device`, and the last try after it. `none` waits; `some none` is -1.
unfoldable pub poll_until : String → ℕ → List Poll → Option (Option SoundCard)
unfolding find_by_serial
poll_until serial deadline [] = none
poll_until serial deadline (p ∷ ps) =
    let rest = poll_until serial deadline ps in
    if ltb p.now deadline
    then or_wait (find_by_serial serial p) rest
    else some (find_by_serial serial p)

-- `wait_for_device`, from the time `start` on
unfoldable pub wait_for_device : String → ℕ → ℕ → List Poll → Option (Option SoundCard)
unfolding poll_until
wait_for_device serial timeout start polls = poll_until serial (start + timeout) polls

-- A turn of the loop that waits for the server to disconnect: the time in seconds, what `select` gives,
-- and what a read of one byte meets.
pub record Look : Type 0 where
  pub now : ℕ
  pub selected : Selected
  pub read : ReadEvent

abbrev after_read : ReadEvent → Option ℤ → Option ℤ
after_read again rest = rest
after_read failed rest = some (negsuc 0)
after_read eof rest = some (pos 0)
after_read (got n) rest = rest

abbrev after_select : Selected → ReadEvent → Option ℤ → Option ℤ
after_select interrupted read rest = rest
after_select broken read rest = some (negsuc 0)
after_select nothing read rest = rest
after_select message read rest = after_read read rest

-- `wait_for_disconnect`, from the time `start` on
unfoldable pub wait_for_disconnect : ℕ → List Look → Option ℤ
wait_for_disconnect start [] = none
wait_for_disconnect start (l ∷ ls) =
    let rest = wait_for_disconnect start ls in
    if leb 1 (l.now - start) then some (negsuc 0) else after_select l.selected l.read rest

-- The card that the first of some polls shows which shows one.
pub first_match : String → List Poll → Option SoundCard
first_match serial [] = none
first_match serial (p ∷ ps) = or_else (find_by_serial serial p) (first_match serial ps)

-- The clock moves on by a second at least from one poll to the next, as the code sleeps for one.
abbrev pub Ticks : ℕ → List Poll → Type 0
Ticks t [] = Unit
Ticks t (p ∷ ps) = (t ≤ p.now) × Ticks (p.now + 1) ps

abbrev pub time_at : List Poll → ℕ → ℕ
time_at [] k = 0
time_at (p ∷ ps) zero = p.now
time_at (p ∷ ps) (suc k) = time_at ps k

-- The wait ends at poll `k`: with the first card that was shown, or past the deadline without one.
abbrev pub EndsAt : String → ℕ → List Poll → ℕ → Option (Option SoundCard) → Type 0
EndsAt serial deadline polls k r =
    ((c : SoundCard) × (r ≡ some (some c)) × (first_match serial (take (suc k) polls) ≡ some c))
    ⊎ ((r ≡ some none)
        × (first_match serial (take (suc k) polls) ≡ none)
        × (deadline ≤ time_at polls k))

-- A poll ends the wait of its loop, or the loop goes on with the polls behind it.
abbrev Ends : String → ℕ → ℕ → List Poll → Option (Option SoundCard) → Type 0
Ends serial deadline t polls r = (k : ℕ) × (k ≤ deadline - t) × EndsAt serial deadline polls k r
