-- ===== src/Xmppd/Stanza.antt =====
-- The stanzas that xmppd.c sends. A text written by snprintf is cut to its array; one put together
-- by strcat is `none` where it would run over its array.
pub mod Overflow
use caligo_engine.Base.{
  ℕ, zero, suc, ◌+◌, ◌-◌, ◌*◌, ◌/◌, ◌%◌, Bool, true, false, Option, none, some, List, [], ◌∷◌, ◌++◌,
  length, take, ltb, ◌==◌, if◌then◌else◌,
}
use caligo_engine.Base.Decimal.{decimal}
use caligo_engine.Base.Text.{codes}

-- snprintf(array, size, ...)
unfoldable pub cut : ℕ → List ℕ → List ℕ
cut size s = take (size - 1) s

-- strcat into an array of `size`, which holds the text and its NUL.
unfoldable pub strcat : ℕ → Option (List ℕ) → List ℕ → Option (List ℕ)
strcat size none s = none
strcat size (some buffer) s =
    if ltb (length buffer + length s) size then some (buffer ++ s) else none

-- One item of the room list, `<room name='%s' count='%d' />`.
unfoldable pub room_item : List ℕ → ℕ → List ℕ
room_item name count =
    codes "<room name='" ++ (name ++ (codes "' count='" ++ (decimal count ++ codes "' />")))

unfoldable pub append_items : ℕ → Option (List ℕ) → List (List ℕ) → Option (List ℕ)
append_items size buffer [] = buffer
append_items size buffer (item ∷ items) = append_items size (strcat size buffer item) items

-- The text of broadcast_room_list, in `char buffer[4096]`.
unfoldable pub room_list : List (List ℕ) → Option (List ℕ)
room_list items =
    strcat 4096 (append_items 4096 (some (codes "<roomlist>")) items) (codes "</roomlist>")

-- `user%d@radio/xmpp`
unfoldable pub user_jid : ℕ → List ℕ
user_jid fd = codes "user" ++ (decimal fd ++ codes "@radio/xmpp")

unfoldable pub disco_info : List ℕ → List ℕ → ℕ → List ℕ
disco_info id to_addr fd = cut 1024 (
    codes "<iq type='result' id='"
    ++ (id
        ++ (codes "' from='"
            ++ (to_addr
                ++ (codes "' to='"
                    ++ (user_jid fd
                        ++ codes
                            "'><query xmlns='http://jabber.org/protocol/disco#info'><identity category='conference' type='text' name='Caligo Chat Service'/><feature var='http://jabber.org/protocol/muc'/><feature var='http://jabber.org/protocol/disco#info'/><feature var='http://jabber.org/protocol/disco#items'/></query></iq>"))))))

-- One item of the room directory, written by snprintf into `char item[256]`.
unfoldable pub disco_item : List ℕ → List ℕ
disco_item name =
    cut 256 (
      codes "<item jid='" ++ (name ++ (codes "@conference.radio' name='" ++ (name ++ codes "'/>"))))

unfoldable pub disco_item_list : List (List ℕ) → List (List ℕ)
disco_item_list [] = []
disco_item_list (r ∷ rooms) = disco_item r ∷ disco_item_list rooms

-- The room directory: `char items[3072]`, then `char response[4096]`.
unfoldable pub disco_items : List ℕ → List ℕ → ℕ → List (List ℕ) → Option (List ℕ)
disco_items id to_addr fd rooms = elim (append_items 3072 (some []) (disco_item_list rooms)) [
  | none ↦ none
  | some items ↦ some (
      cut 4096 (
        codes "<iq type='result' id='"
        ++ (id
            ++ (codes "' from='"
                ++ (to_addr
                    ++ (codes "' to='"
                        ++ (user_jid fd
                            ++ (codes "'><query xmlns='http://jabber.org/protocol/disco#items'>"
                                ++ (items ++ codes "</query></iq>")))))))))
]

unfoldable pub presence : List ℕ → List ℕ → List ℕ → List ℕ → List ℕ
presence room nickname jid status = cut 512 (
    codes "<presence from='"
    ++ (room
        ++ (codes "@conference.radio/"
            ++ (nickname
                ++ (codes "' to='"
                    ++ (jid
                        ++ (codes
                              "'><x xmlns='http://jabber.org/protocol/muc#user'><item affiliation='member' role='participant'/>"
                            ++ (status ++ codes "</x></presence>"))))))))

unfoldable pub self_status : List ℕ
self_status = codes "<status code='110'/>"

unfoldable pub group_message : List ℕ → List ℕ → List ℕ → List ℕ → List ℕ
group_message room nickname jid body = cut 4608 (
    codes "<message type='groupchat' from='"
    ++ (room
        ++ (codes "@conference.radio/"
            ++ (nickname
                ++ (codes "' to='"
                    ++ (jid ++ (codes "'><body>" ++ (body ++ codes "</body></message>"))))))))

unfoldable pub iq_result : ℕ → List ℕ → List ℕ
iq_result size id = cut size (codes "<iq type='result' id='" ++ (id ++ codes "'/>"))

unfoldable pub bind_result : List ℕ → List ℕ → List ℕ
bind_result id jid = cut 512 (
    codes "<iq type='result' id='"
    ++ (id
        ++ (codes "'><bind xmlns='urn:ietf:params:xml:ns:xmpp-bind'><jid>"
            ++ (jid ++ codes "</jid></bind></iq>"))))

unfoldable pub sasl_header : List ℕ
sasl_header =
    codes
      "<?xml version='1.0'?><stream:stream from='caligo-radio' id='auth-stream' version='1.0' xmlns='jabber:client' xmlns:stream='http://etherx.jabber.org/streams'><stream:features><mechanisms xmlns='urn:ietf:params:xml:ns:xmpp-sasl'><mechanism>PLAIN</mechanism></mechanisms></stream:features>"

unfoldable pub bind_header : List ℕ
bind_header =
    codes
      "<?xml version='1.0'?><stream:stream from='caligo-radio' id='bind-stream' version='1.0' xmlns='jabber:client' xmlns:stream='http://etherx.jabber.org/streams'><stream:features><bind xmlns='urn:ietf:params:xml:ns:xmpp-bind'/><session xmlns='urn:ietf:params:xml:ns:xmpp-session'/></stream:features>"

unfoldable pub sasl_success : List ℕ
sasl_success = codes "<success xmlns='urn:ietf:params:xml:ns:xmpp-sasl'/>"
