-- ===== src/Net/WebSocket/Pieces.antt =====
-- websocket.go: successive calls of `Parse`, one for each read of the socket.
use mathlib.Core.List.{flatten}
use live_chat_room.Prelude.{
  ℕ, ◌≡◌, refl, ap, subst, not, Bool, List, [], ◌∷◌, ◌++◌, append_nil, All, map,
}
use live_chat_room.Net.WebSocket.{
  Parser, Message, ParseError, ParseResult, messages, error, out_of_fuel, parse,
}
use live_chat_room.Net.WebSocket.Builder.{ok}
use live_chat_room.Net.WebSocket.Stream.{join, parse_ends, parse-append, parse-append_error}
use live_chat_room.Net.WebSocket.Transfer.{
  Outgoing, IsSendable, received, build_all, parse-build_all,
}

-- How successive calls end: with the last piece, or with the first error.
pub data End : Type 0 where
  all_parsed : End
  stopped : ParseError → End
  fuel_spent : End

-- `next` is the calls that follow.
abbrev pub after_piece : (Parser → List Message × End) → Parser × ParseResult → List Message × End
after_piece next (p, messages ms) = (ms ++ (next p).0, (next p).1)
after_piece next (p, error e) = ([], stopped e)
after_piece next (p, out_of_fuel) = ([], fuel_spent)

-- The messages that the calls return, one after another, and how they end. A call that fails returns
-- no messages, and none follows; those of the calls before it have been returned.
unfoldable pub parse_pieces : List (List ℕ) → Parser → List Message × End
parse_pieces [] p = ([], all_parsed)
parse_pieces (x ∷ xs) p = after_piece (parse_pieces xs) (parse p x)

-- How the calls on the pieces compare to one call on all their bytes, by what that call gives: the
-- same messages; or the same error, after the messages of the pieces before the one that shows it.
abbrev pub Agrees : List (List ℕ) → Parser → ParseResult → Type 0
Agrees pieces p (messages ms) = parse_pieces pieces p ≡ (ms, all_parsed)
Agrees pieces p (error e) =
    (before : List (List ℕ)) × (y : List ℕ) × (rest : List (List ℕ)) × (ms : List Message) × (pieces
      ≡ before ++ (y ∷ rest))
    × (parse_pieces before p ≡ (ms, all_parsed))
    × (parse_pieces pieces p ≡ (ms, stopped e))
Agrees pieces p out_of_fuel = ⊥

-- One piece more in front, which is parsed without an error.
cons-Agrees :
    (p q : Parser) (x : List ℕ) (ms : List Message) (xs : List (List ℕ)) (r : ParseResult)
    → parse p x ≡ (q, messages ms)
    → Agrees xs q r
    → Agrees (x ∷ xs) p (join ms r)
unfolding parse_pieces
cons-Agrees p q x ms xs (messages ns) e v = rw (e, v) refl
cons-Agrees p q x ms xs (error r) e (before, y, rest, ns, split, sound, stop) =
    (x ∷ before, y, rest, ms ++ ns, ap (λ l. x ∷ l) split, rw (e, sound) refl, rw (e, stop) refl)
cons-Agrees p q x ms xs out_of_fuel e v = absurd v

-- The first piece alone.
first-Agrees :
    (p : Parser) (x : List ℕ) (o : Parser × ParseResult) → parse p x ≡ o → Agrees (x ∷ []) p o.1
unfolding parse_pieces
first-Agrees p x (q, messages ms) e = rw (e, append_nil ms) refl
first-Agrees p x (q, error r) e = ([], x, [], [], refl, refl, rw e refl)
first-Agrees p x (q, out_of_fuel) e = parse_ends p x (ap (λ (o : Parser × ParseResult). o.1) e)

-- The first piece, and those behind it.
step-Agrees :
    (p : Parser) (x ys : List ℕ) (xs : List (List ℕ)) (o : Parser × ParseResult)
    → ((q : Parser) → Agrees xs q (parse q ys).1)
    → parse p x ≡ o
    → Agrees (x ∷ xs) p (parse p (x ++ ys)).1
unfolding parse_pieces
step-Agrees p x ys xs (q, messages ms) ih e =
    rw (parse-append p x ys e) (cons-Agrees p q x ms xs (parse q ys).1 e (ih q))
step-Agrees p x ys xs (q, error r) ih e =
    rw (parse-append_error p x ys e) ([], x, xs, [], refl, refl, rw e refl)
step-Agrees p x ys xs (q, out_of_fuel) ih e =
    absurd (parse_ends p x (ap (λ (o : Parser × ParseResult). o.1) e))

-- Where one call on all the bytes gives messages, calls on the bytes in pieces, at least one, return just
-- these messages. Where it gives an error, they end with the same error, and return before it the
-- messages of the pieces in front of the one that shows it, which the one call loses.
pub parse_pieces-Agrees :
    (x : List ℕ) (xs : List (List ℕ)) (p : Parser)
    → Agrees (x ∷ xs) p (parse p (flatten (x ∷ xs))).1
unfolding flatten
parse_pieces-Agrees x [] p = rw (append_nil x) (first-Agrees p x (parse p x) refl)
parse_pieces-Agrees x (y ∷ ys) p =
    step-Agrees p x (flatten (y ∷ ys)) (y ∷ ys) (parse p x) (parse_pieces-Agrees y ys) refl

-- Messages that are built as one frame each, with mask keys of four bytes and payloads within the
-- parser's frame size, valid UTF-8 where they are texts, and that arrive in any pieces at a parser of
-- the other side whose buffer is empty, are parsed to just these messages in their order.
pub parse_pieces-build_all :
    (is_server : Bool) (ms : List Outgoing) (p : Parser) (x : List ℕ) (xs : List (List ℕ))
    → p.is_server ≡ not is_server
    → p.buffer ≡ []
    → All (IsSendable p.max_frame_size) ms
    → build_all is_server ms ≡ ok (flatten (x ∷ xs))
    → parse_pieces (x ∷ xs) p ≡ (map (received is_server) ms, all_parsed)
parse_pieces-build_all is_server ms p x xs hs hb hp built =
    subst (Agrees (x ∷ xs) p)
      (ap (λ (o : Parser × ParseResult). o.1) (parse-build_all is_server ms p hs hb hp built))
      (parse_pieces-Agrees x xs p)
