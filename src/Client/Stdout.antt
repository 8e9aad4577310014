-- ===== src/Client/Stdout.antt =====
-- `write_stdout` of src/client.rs: all bytes are written, however the terminal takes them, and flushed.
use ttyleport.Prelude.{
  ℕ, zero, suc, ◌≤◌, ◌≡◌, refl, List, [], ◌∷◌, ◌++◌, arith, Bytes, length, take, drop, length-drop,
  take-append-drop,
}

-- What one `write` or `flush` gives. A `write` takes some of the bytes.
pub data WriteAnswer : Type 0 where
  wrote : (n : ℕ) → WriteAnswer
  write_would_block write_interrupted write_failed : WriteAnswer

pub data FlushAnswer : Type 0 where
  flushed flush_would_block flush_interrupted flush_failed : FlushAnswer

-- How a loop ends: by its test, or with an error; `waiting` if the answers given end before it does.
pub data LoopEnd : Type 0 where
  finished errored waiting : LoopEnd

-- `while written < data.len()`, with the bytes that are left; the result has those that were written.
unfoldable pub write_loop : Bytes → List WriteAnswer → Bytes × LoopEnd
write_loop [] answers = ([], finished)
write_loop (b ∷ left) [] = ([], waiting)
write_loop (b ∷ left) (wrote n ∷ answers) =
    let rest = write_loop (drop n (b ∷ left)) answers in (take n (b ∷ left) ++ rest.0, rest.1)
write_loop (b ∷ left) (write_would_block ∷ answers) = write_loop (b ∷ left) answers
write_loop (b ∷ left) (write_interrupted ∷ answers) = write_loop (b ∷ left) answers
write_loop (b ∷ left) (write_failed ∷ answers) = ([], errored)

unfoldable pub flush_loop : List FlushAnswer → LoopEnd
flush_loop [] = waiting
flush_loop (flushed ∷ answers) = finished
flush_loop (flush_would_block ∷ answers) = flush_loop answers
flush_loop (flush_interrupted ∷ answers) = flush_loop answers
flush_loop (flush_failed ∷ answers) = errored

abbrev pub and_flush : Bytes × LoopEnd → List FlushAnswer → Bytes × LoopEnd
and_flush (out, finished) flushes = (out, flush_loop flushes)
and_flush (out, end) flushes = (out, end)

unfoldable pub write_stdout : Bytes → List WriteAnswer → List FlushAnswer → Bytes × LoopEnd
unfolding write_loop flush_loop
write_stdout text writes flushes = and_flush (write_loop text writes) flushes

-- How many writes take a byte at least, if none fails.
abbrev pub Productive : ℕ → List WriteAnswer → Type 0
Productive zero answers = Unit
Productive (suc n) [] = ⊥
Productive (suc n) (wrote zero ∷ answers) = Productive (suc n) answers
Productive (suc n) (wrote (suc k) ∷ answers) = Productive n answers
Productive (suc n) (write_failed ∷ answers) = ⊥
Productive (suc n) (_ ∷ answers) = Productive (suc n) answers

abbrev pub Flushes : List FlushAnswer → Type 0
Flushes [] = ⊥
Flushes (flushed ∷ answers) = Unit
Flushes (flush_failed ∷ answers) = ⊥
Flushes (_ ∷ answers) = Flushes answers

Productive-le :
    (m n : ℕ) (answers : List WriteAnswer) → m ≤ n → Productive n answers → Productive m answers
Productive-le zero n answers le h = tt
Productive-le (suc m) zero answers le h = elim le [ ]
Productive-le (suc m) (suc n) [] le h = h
Productive-le (suc m) (suc n) (wrote zero ∷ answers) le h =
    Productive-le (suc m) (suc n) answers le h
Productive-le (suc m) (suc n) (wrote (suc k) ∷ answers) le h =
    Productive-le m n answers (omega arith) h
Productive-le (suc m) (suc n) (write_would_block ∷ answers) le h =
    Productive-le (suc m) (suc n) answers le h
Productive-le (suc m) (suc n) (write_interrupted ∷ answers) le h =
    Productive-le (suc m) (suc n) answers le h
Productive-le (suc m) (suc n) (write_failed ∷ answers) le h = h

write_loop-finished :
    (text : Bytes) (answers : List WriteAnswer)
    → Productive (length text) answers
    → write_loop text answers ≡ (text, finished)
unfolding write_loop
write_loop-finished [] answers h = refl
write_loop-finished (b ∷ left) [] h = absurd h
write_loop-finished (b ∷ left) (wrote zero ∷ answers) h = write_loop-finished (b ∷ left) answers h
write_loop-finished (b ∷ left) (wrote (suc k) ∷ answers) h =
    let rest =
      write_loop-finished (drop k left) answers
        (Productive-le _ _ answers (omega (arith, length-drop k left)) h) in
    rw (rest, take-append-drop k left) refl
write_loop-finished (b ∷ left) (write_would_block ∷ answers) h =
    write_loop-finished (b ∷ left) answers h
write_loop-finished (b ∷ left) (write_interrupted ∷ answers) h =
    write_loop-finished (b ∷ left) answers h
write_loop-finished (b ∷ left) (write_failed ∷ answers) h = absurd h

flush_loop-finished : (answers : List FlushAnswer) → Flushes answers → flush_loop answers ≡ finished
unfolding flush_loop
flush_loop-finished [] h = absurd h
flush_loop-finished (flushed ∷ answers) h = refl
flush_loop-finished (flush_failed ∷ answers) h = absurd h
flush_loop-finished (flush_would_block ∷ answers) h = flush_loop-finished answers h
flush_loop-finished (flush_interrupted ∷ answers) h = flush_loop-finished answers h

-- As many writes as there are bytes, each of which takes one byte or more, and one flush end the
-- loops, whatever blocks and interrupts stand between and however long the writes are: exactly the
-- text has been written, in order.
pub write_stdout-finished :
    (text : Bytes) (writes : List WriteAnswer) (flushes : List FlushAnswer)
    → Productive (length text) writes
    → Flushes flushes
    → write_stdout text writes flushes ≡ (text, finished)
unfolding write_stdout
write_stdout-finished text writes flushes p f =
    rw (write_loop-finished text writes p, flush_loop-finished flushes f) refl
