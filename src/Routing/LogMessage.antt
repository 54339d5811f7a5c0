-- ===== src/Routing/LogMessage.antt =====
-- routing/subscription.go: ParseLogMessage reads a line of the broker's log by five regular
-- expressions. They are the ones of the source, as sequences of pieces that are matched with
-- backtracking, the longest run first, at the first position where the whole sequence matches,
-- as package regexp does. A time stamp has at most eleven digits, so it is always an int64.
use suite_connector.Prelude.{
  ℕ, zero, suc, ◌-◌, Bool, true, false, ◌&&◌, Option, none, some, List, [], ◌∷◌, ◌++◌, leb,
  if◌then◌else◌, length, drop,
}
use suite_connector.Prelude.Text.{Text, codes, text_eq, has_prefix}
use suite_connector.Util.Timeout.{digits_value}

pub data LogType : Type 0 where
  subscription unsubscription disconnection termination : LogType

pub record LogMessage : Type 0 where
  pub client_id : Text
  pub timestamp : ℕ
  pub text : Text
  pub kind : LogType

-- A literal, a choice of two literals, or a run of bytes of a class, of at least one and at most so
-- many bytes (`none` for no bound).
pub data Piece : Type 0 where
  lit : Text → Piece
  either : Text → Text → Piece
  run : (ℕ → Bool) → ℕ → Option ℕ → Piece

abbrev pub or_else {ℓ} : {A : Type ℓ} → Option A → Option A → Option A
or_else (some a) other = some a
or_else none other = other

-- The text that a piece took, put before what the rest took.
abbrev pub took : Text → Option (List Text) → Option (List Text)
took t none = none
took t (some ts) = some (t ∷ ts)

abbrev pub more_byte : ℕ → Option (List Text) → Option (List Text)
more_byte c none = none
more_byte c (some []) = none
more_byte c (some (t ∷ ts)) = some ((c ∷ t) ∷ ts)

-- Whether a bound leaves room for one more byte, and the bound behind it.
abbrev pub has_room : Option ℕ → Bool
has_room none = true
has_room (some zero) = false
has_room (some (suc n)) = true

abbrev pub less_room : Option ℕ → Option ℕ
less_room none = none
less_room (some zero) = some zero
less_room (some (suc n)) = some n

-- A run, greedy: a longer one is tried before the rest of the expression.
unfoldable pub match_run :
    (ℕ → Bool) → ℕ → Option ℕ → (Text → Option (List Text)) → Text → Option (List Text)
match_run p least most rest [] = if leb least 0 then took [] (rest []) else none
match_run p least most rest (c ∷ s) =
    let longer = more_byte c (match_run p (least - 1) (less_room most) rest s) in
    let here = if leb least 0 then took [] (rest (c ∷ s)) else none in
    if p c && has_room most then or_else longer here else here

unfoldable pub match_lit : Text → (Text → Option (List Text)) → Text → Option (List Text)
match_lit l rest s = if has_prefix s l then took l (rest (drop (length l) s)) else none

-- The sequence matched at the beginning of a text: what each piece took.
unfoldable pub match_here : List Piece → Text → Option (List Text)
match_here [] s = some []
match_here (lit l ∷ ps) s = match_lit l (match_here ps) s
match_here (either a b ∷ ps) s =
    or_else (match_lit a (match_here ps) s) (match_lit b (match_here ps) s)
match_here (run p least most ∷ ps) s = match_run p least most (match_here ps) s

-- FindStringSubmatch: the leftmost match.
unfoldable pub find_match : List Piece → Text → Option (List Text)
find_match ps [] = match_here ps []
find_match ps (c ∷ s) = let later = find_match ps s in or_else (match_here ps (c ∷ s)) later

abbrev pub is_digit : ℕ → Bool
is_digit c = leb b'0' c && leb c b'9'

abbrev pub is_print : ℕ → Bool
is_print c = leb 0x20 c && leb c 0x7e

abbrev pub is_qos : ℕ → Bool
is_qos c = leb b'0' c && leb c b'2'

abbrev pub time_piece : Piece
time_piece = run is_digit 6 (some 11)

abbrev pub print_piece : Piece
print_piece = run is_print 1 none

-- `(c|command)//[[:print:]]+/(q|req)/#`
abbrev pub topic_pieces : List Piece
topic_pieces =
    either (codes "c") (codes "command")
    ∷ lit (codes "//")
    ∷ print_piece
    ∷ lit (codes "/")
    ∷ either (codes "q") (codes "req")
    ∷ lit (codes "/#")
    ∷ []

abbrev pub subscribe_regexp : List Piece
subscribe_regexp =
    time_piece
    ∷ lit (codes ": ")
    ∷ print_piece
    ∷ lit (codes " ")
    ∷ run is_qos 1 (some 1)
    ∷ lit (codes " ")
    ∷ topic_pieces

abbrev pub unsubscribe_regexp : List Piece
unsubscribe_regexp = time_piece ∷ lit (codes ": ") ∷ print_piece ∷ lit (codes " ") ∷ topic_pieces

-- A dot of an expression matches any byte but a line feed.
abbrev pub any_byte : Piece
any_byte = run (λ c. if leb 10 c && leb c 10 then false else true) 1 (some 1)

abbrev pub disconnected_regexp : List Piece
disconnected_regexp =
    time_piece
    ∷ lit (codes ": Client ")
    ∷ print_piece
    ∷ lit (codes " ")
    ∷ lit (codes "disconnected")
    ∷ any_byte
    ∷ []

abbrev pub disconnecting_regexp : List Piece
disconnecting_regexp =
    time_piece
    ∷ lit (codes ": Socket error on client ")
    ∷ print_piece
    ∷ lit (codes ", ")
    ∷ lit (codes "disconnecting")
    ∷ any_byte
    ∷ []

abbrev pub closed_connection_regexp : List Piece
closed_connection_regexp =
    time_piece
    ∷ lit (codes ": Client ")
    ∷ print_piece
    ∷ lit (codes " ")
    ∷ lit (codes "closed its connection")
    ∷ any_byte
    ∷ []

abbrev pub concat : List Text → Text
concat [] = []
concat (t ∷ ts) = t ++ concat ts

-- The message of a match: the time, the client behind it, and the text behind `skip` more pieces.
unfoldable pub message_of : LogType → ℕ → Option (List Text) → Option LogMessage
unfolding digits_value
message_of kind skip (some (time ∷ sep ∷ client ∷ pieces)) = elim (digits_value 0 time) [
  | some stamp ↦ some (record {
    client_id = client;
    timestamp = stamp;
    text = concat (drop skip pieces);
    kind = kind;
  })
  | none ↦ none
]
message_of kind skip _ = none

abbrev pub topic_log_subscribe : Text
topic_log_subscribe = codes "$SYS/broker/log/M/subscribe"

abbrev pub topic_log_unsubscribe : Text
topic_log_unsubscribe = codes "$SYS/broker/log/M/unsubscribe"

abbrev pub topic_log_notice_level : Text
topic_log_notice_level = codes "$SYS/broker/log/N"

unfoldable pub parse_log_message_notice_level : Text → Option LogMessage
unfolding message_of find_match
parse_log_message_notice_level message =
    or_else (message_of disconnection 1 (find_match disconnected_regexp message)) (
      or_else (message_of termination 1 (find_match disconnecting_regexp message))
        (message_of termination 1 (find_match closed_connection_regexp message)))

unfoldable pub parse_log_message : Text → Text → Option LogMessage
unfolding message_of find_match
parse_log_message topic message =
    if text_eq topic topic_log_subscribe
    then message_of subscription 3 (find_match subscribe_regexp message)
    else if text_eq topic topic_log_unsubscribe
    then message_of unsubscription 1 (find_match unsubscribe_regexp message)
    else if text_eq topic topic_log_notice_level
    then parse_log_message_notice_level message
    else none
