-- ===== src/User/Tests.antt =====
-- The sieve up to 30.
use sacabambaspos.Base.{
  ℕ, ◌≡◌, ◌<◌, ◌+◌, refl, arith, Bool, true, false, Option, none, some, List, [], ◌∷◌, length,
}
use sacabambaspos.Keys.{key_up}
use sacabambaspos.User.Calls.{rnd_next}
use sacabambaspos.User.Snake.{
  Snake, up, Start, too_small, no_place, ready, start, start_with, opening, put_food, find_food,
  emit_calls, play_round, play, steer, go_on, round_towards, turn, move_head, step_x, step_y,
  crashed, forward, eat, erase, shrink, finish_round, set_occ, cell, status,
}
use sacabambaspos.User.Snake.Trail.{Trail, InField, code}
use sacabambaspos.User.Snake.Cells.{member}
use sacabambaspos.User.Snake.Rounds.{Shows, ahead, behind, growth, play_round-Shows}
use sacabambaspos.User.Snake.Games.{start-Trail, start-Shows, find_food-full}
use sacabambaspos.User.Primes.{set_mark, mark_from, sieve_step, sieve_from, sieve}
use sacabambaspos.User.Primes.Correct.{IsPrime, sieve-IsPrime}

sieve-IsPrime_example :
    ((sieve 30).comp 29 ≡ false → IsPrime 29) × (IsPrime 29 → (sieve 30).comp 29 ≡ false)
sieve-IsPrime_example = sieve-IsPrime 30 29 (omega arith) (omega arith)

ten_primes : (sieve 30).count ≡ 10
unfolding sieve sieve_from sieve_step mark_from set_mark
ten_primes = refl

largest : (sieve 30).last ≡ 29
unfolding sieve sieve_from sieve_step mark_from set_mark
largest = refl

-- A field of 20 columns and 10 rows, and the snake of the first round.
abbrev ready_or : Start → Snake → Snake
ready_or (too_small cs) d = d
ready_or no_place d = d
ready_or (ready s) d = s

abbrev begun : Snake
begun = ready_or (start 5 20 10 1) (opening 20 10 1)

abbrev after_or : Option (Bool × Snake) → Snake → Bool × Snake
after_or none d = (false, d)
after_or (some r) d = r

-- Up, and then a key that stands for nothing.
abbrev moved : Snake
moved = (after_or (play_round 5 (key_up ∷ 65 ∷ []) begun) begun).1

begun_ready : start 5 20 10 1 ≡ ready begun
unfolding start start_with opening put_food find_food rnd_next emit_calls
begun_ready = refl

moved_on : play_round 5 (key_up ∷ 65 ∷ []) begun ≡ some (true, moved)
unfolding start start_with opening put_food find_food rnd_next emit_calls play play_round go_on
    round_towards steer turn move_head step_x step_y crashed forward eat erase shrink finish_round
    set_occ cell status
moved_on = refl

moved_played : play 5 ((key_up ∷ 65 ∷ []) ∷ []) begun ≡ some (true, moved)
unfolding play go_on
moved_played = rw moved_on refl

start-Trail_example : (cells : List ℕ) × Trail moved cells × (length cells < 8192)
start-Trail_example =
    start-Trail 5 20 10 1 ((key_up ∷ 65 ∷ []) ∷ []) begun moved true begun_ready moved_played

upwards : steer (key_up ∷ 65 ∷ []) begun.dir ≡ some up
unfolding steer turn start start_with opening put_food find_food rnd_next emit_calls
upwards = refl

play_round-Shows_example :
    InField begun.w begun.h (ahead up begun)
    × (member (ahead up begun) (code 10 5 ∷ []) ≡ false)
    × Shows moved
        (ahead up begun)
        (behind (begun.grow + growth (move_head up begun)) (code 10 5) [])
play_round-Shows_example =
    play_round-Shows 5 (key_up ∷ 65 ∷ []) up begun moved (code 10 5) []
      (start-Shows 5 20 10 1 begun begun_ready) upwards moved_on

find_food-full_example : find_food 100 (λ x y. true) 20 10 1 ≡ none
find_food-full_example =
    find_food-full 100 (λ x y. true) 20 10 1 (omega arith) (omega arith) (λ x y a b c d. refl)
