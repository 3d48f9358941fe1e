-- ===== src/Client/Slow.antt =====
-- A socket whose later bytes come one for each wait.
use daqs.Base.{ℕ, ◌≡◌, refl, ◌≢◌, ◌++◌, Bool, true, false, some, List, [], ◌∷◌, take, drop}
use daqs.Client.{Socket}
use daqs.Client.Reading.{IsStream}

pub record Line : Type 0 where
  pub here : List ℕ
  pub later : List ℕ

abbrev pub wait : List ℕ → Line → Bool × Line
wait [] k = (false, k)
wait (b ∷ r) k = (true, record { here = b ∷ []; later = r })

abbrev pub slow_socket : Socket Line
slow_socket = record {
  read = λ n k. (some (take n k.here), record k { here = drop n k.here });
  wait_for_ready_read = λ k. wait k.later k;
}

pub wait_answer : (r : List ℕ) (k : Line) → r ≢ [] → (wait r k).0 ≡ true
wait_answer [] k h = absurd (h refl)
wait_answer (b ∷ r) k h = refl

pub wait-false : (r : List ℕ) (k : Line) → r ≡ [] → (wait r k).0 ≡ false
wait-false [] k h = refl
wait-false (b ∷ r) k h = cc

pub wait_some : (r : List ℕ) (k : Line) → r ≢ [] → (wait r k).1.here ≢ []
wait_some [] k h = absurd (h refl)
wait_some (b ∷ r) k h = λ e. cc

pub wait_bytes : (r : List ℕ) (k : Line) → r ≢ [] → (wait r k).1.here ++ (wait r k).1.later ≡ r
wait_bytes [] k h = absurd (h refl)
wait_bytes (b ∷ r) k h = refl

unfoldable pub slow_socket-IsStream : IsStream slow_socket
slow_socket-IsStream = record {
  buffered = λ k. k.here;
  coming = λ k. k.later;
  read_answer = λ n k. refl;
  read_buffered = λ n k. refl;
  read_coming = λ n k. refl;
  wait_answer = λ k _ h. wait_answer k.later k h;
  wait_none = λ k _ h. wait-false k.later k h;
  wait_some = λ k _ h. wait_some k.later k h;
  wait_bytes = λ k _ h. wait_bytes k.later k h;
}

-- The first `n` bytes are there.
abbrev pub arriving : ℕ → List ℕ → Line
arriving n bytes = record { here = take n bytes; later = drop n bytes }
