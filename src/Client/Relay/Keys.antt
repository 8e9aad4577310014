-- ===== src/Client/Relay/Keys.antt =====
-- What the relay of src/client.rs sends of the keyboard input, among all else that it does.
use ttyleport.Prelude.{
  ℕ, zero, suc, Bool, true, false, List, [], ◌∷◌, ◌++◌, map, Option, Bytes, ℤ, ◌≡◌, refl, sym, ◌∙◌,
  append_assoc, append-nil,
}
use ttyleport.Protocol.{data_frame}
use ttyleport.Client.Escape.{EscapeAction, typed, detach, suspend, help}
use ttyleport.Client.Escape.Stream.{
  Output, byte, do_detach, do_suspend, do_help, outputs_of, outputs,
}
use ttyleport.Client.Relay.{
  World, Action, send, print, stop_self, going, returned, failed, Doing, timed_send, print_then,
  send_size, suspended, on_action, chain, on_actions, keys, Input, stdin_in, Events,
}

-- The bytes of the Data frames that are sent.
abbrev pub sent_bytes : List Action → Bytes
sent_bytes [] = []
sent_bytes (send (data_frame p) ∷ acts) = p ++ sent_bytes acts
sent_bytes (_ ∷ acts) = sent_bytes acts

-- The bytes among the outputs of the escape processor.
abbrev pub bytes_of : List Output → Bytes
bytes_of [] = []
bytes_of (byte b ∷ outs) = b ∷ bytes_of outs
bytes_of (_ ∷ outs) = bytes_of outs

abbrev pub has_detach : List Output → Bool
has_detach [] = false
has_detach (do_detach ∷ outs) = true
has_detach (_ ∷ outs) = has_detach outs

-- What is typed in a round, and in a run.
abbrev pub typed_now : Input → Bytes
typed_now (stdin_in (keys bytes)) = bytes
typed_now _ = []

abbrev pub typed_in : Events → Bytes
typed_in [] = []
typed_in ((w, input) ∷ events) = typed_now input ++ typed_in events

pub sent_bytes-append :
    (xs ys : List Action) → sent_bytes (xs ++ ys) ≡ sent_bytes xs ++ sent_bytes ys
sent_bytes-append [] ys = refl
sent_bytes-append (send (data_frame p) ∷ xs) ys =
    rw (sent_bytes-append xs ys) (sym (append_assoc p _ _))
sent_bytes-append (send _ ∷ xs) ys = sent_bytes-append xs ys
sent_bytes-append (print p ∷ xs) ys = sent_bytes-append xs ys
sent_bytes-append (stop_self ∷ xs) ys = sent_bytes-append xs ys

pub bytes_of-append : (xs ys : List Output) → bytes_of (xs ++ ys) ≡ bytes_of xs ++ bytes_of ys
bytes_of-append [] ys = refl
bytes_of-append (byte b ∷ xs) ys = rw (bytes_of-append xs ys) refl
bytes_of-append (do_detach ∷ xs) ys = bytes_of-append xs ys
bytes_of-append (do_suspend ∷ xs) ys = bytes_of-append xs ys
bytes_of-append (do_help ∷ xs) ys = bytes_of-append xs ys

has_detach-append :
    (xs ys : List Output)
    → has_detach xs ≡ false
    → has_detach ys ≡ false
    → has_detach (xs ++ ys) ≡ false
has_detach-append [] ys hx hy = hy
has_detach-append (byte b ∷ xs) ys hx hy = has_detach-append xs ys hx hy
has_detach-append (do_detach ∷ xs) ys hx hy = cc hx
has_detach-append (do_suspend ∷ xs) ys hx hy = has_detach-append xs ys hx hy
has_detach-append (do_help ∷ xs) ys hx hy = has_detach-append xs ys hx hy

bytes_of-byte : (p : Bytes) → bytes_of (map byte p) ≡ p
bytes_of-byte [] = refl
bytes_of-byte (b ∷ p) = rw (bytes_of-byte p) refl

has_detach-byte : (p : Bytes) → has_detach (map byte p) ≡ false
has_detach-byte [] = refl
has_detach-byte (b ∷ p) = has_detach-byte p

-- If the relay goes on, exactly the bytes of the outputs were sent.
abbrev pub Heard : List Output → Doing → Type 0
Heard outs (acts, going m) = (sent_bytes acts ≡ bytes_of outs) × (has_detach outs ≡ false)
Heard outs _ = Unit

append-Heard :
    (outs more : List Output) (acts : List Action) (d : Doing)
    → sent_bytes acts ≡ bytes_of outs
    → has_detach outs ≡ false
    → Heard more d
    → Heard (outs ++ more) (acts ++ d.0, d.1)
append-Heard outs more acts (acts', going m) e n (e', n') = (
  rw (sent_bytes-append acts acts', bytes_of-append outs more, e, e') refl,
  has_detach-append outs more n n',
)
append-Heard outs more acts (acts', returned code) e n _ = tt
append-Heard outs more acts (acts', failed) e n _ = tt

chain-Heard :
    (outs more : List Output) (d : Doing) (k : ℕ → Doing)
    → Heard outs d
    → ((m : ℕ) → Heard more (k m))
    → Heard (outs ++ more) (chain d k)
chain-Heard outs more (acts, going m) k (e, n) h = append-Heard outs more acts (k m) e n (h m)
chain-Heard outs more (acts, returned code) k _ h = tt
chain-Heard outs more (acts, failed) k _ h = tt

typed-Heard : (n : ℕ) (p : Bytes) → Heard (map byte p) (timed_send n (data_frame p))
typed-Heard zero p = tt
typed-Heard (suc n) p = (append-nil p ∙ sym (bytes_of-byte p), has_detach-byte p)

send_size-Heard : (w : World) (n : ℕ) → Heard [] (send_size w n)
send_size-Heard w zero = tt
send_size-Heard w (suc n) = (refl, refl)

suspended-Heard : (w : World) (can : Bool) (n : ℕ) → Heard (do_suspend ∷ []) (suspended w can n)
suspended-Heard w true zero = tt
suspended-Heard w true (suc n) = (refl, refl)
suspended-Heard w false n = tt

detach-Heard :
    (can : Bool) (text : Bytes) (code : Option ℤ)
    → Heard (do_detach ∷ []) (print_then can text (returned code))
detach-Heard true text code = tt
detach-Heard false text code = tt

print-Heard :
    (can : Bool) (text : Bytes) (n : ℕ) → Heard (do_help ∷ []) (print_then can text (going n))
print-Heard true text n = (refl, refl)
print-Heard false text n = tt

on_action-Heard : (w : World) (n : ℕ) (a : EscapeAction) → Heard (outputs_of a) (on_action w n a)
unfolding on_action
on_action-Heard w n (typed p) = typed-Heard n p
on_action-Heard w n detach = detach-Heard w.can_print _ _
on_action-Heard w n suspend = suspended-Heard w w.can_suspend n
on_action-Heard w n help = print-Heard w.can_print _ n

pub on_actions-Heard :
    (w : World) (n : ℕ) (actions : List EscapeAction)
    → Heard (outputs actions) (on_actions w n actions)
unfolding on_actions
on_actions-Heard w n [] = (refl, refl)
on_actions-Heard w n (a ∷ actions) =
    chain-Heard (outputs_of a) (outputs actions) (on_action w n a) _ (on_action-Heard w n a)
      (λ m. on_actions-Heard w m actions)
