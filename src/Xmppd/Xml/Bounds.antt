-- ===== src/Xmppd/Xml/Bounds.antt =====
-- What the scanning functions write fits the arrays of their callers.
use caligo_engine.Base.{
  ℕ, ◌+◌, ◌≤◌, List, [], length, drop, arith, length-take, length-drop, Option-cases, inl, inr,
  le→leb, lt→leb_false,
}
use native.Mathlib.Decide.{dec_le}
use caligo_engine.Base.Text.{codes, find_sub}
use caligo_engine.Xmppd.Xml.{find_quote, quoted, attribute_start, extract_attribute, extract_body}

length-quoted : (start dest : List ℕ) → length dest ≤ 63 → length (quoted start dest) ≤ 63
unfolding quoted
length-quoted start dest h = elim (Option-cases (find_quote start)) [
  | inl e ↦ rw (e, quoted) h
  | inr (n, e) ↦ elim (dec_le 63 n) [
    | yes long ↦ rw (e, quoted, le→leb 63 n long) (omega (arith, length-take 63 start))
    | no short ↦
        rw (e, quoted, lt→leb_false 63 n (omega arith)) (omega (arith, length-take n start))
  ]
]

-- What extract_attribute leaves has at most 63 characters, if what stood there before has.
pub length-extract_attribute :
    (xml attr dest : List ℕ) → length dest ≤ 63 → length (extract_attribute xml attr dest) ≤ 63
unfolding extract_attribute
length-extract_attribute xml attr dest h = elim (Option-cases (attribute_start xml attr)) [
  | inl e ↦ rw (e, extract_attribute) h
  | inr (i, e) ↦ rw (e, extract_attribute) (length-quoted (drop i xml) dest h)
]

-- What extract_body leaves in an empty array is no longer than the message.
pub length-extract_body : (xml : List ℕ) → length (extract_body xml []) ≤ length xml
unfolding extract_body
length-extract_body xml = elim (Option-cases (find_sub (codes "<body>") xml)) [
  | inl e ↦ rw (e, extract_body) (omega arith)
  | inr (i, e) ↦ elim (Option-cases (find_sub (codes "</body>") (drop (i + 6) xml))) [
    | inl e' ↦ rw (e, e', extract_body) (omega arith)
    | inr (n, e') ↦
        rw (e, e', extract_body)
          (omega (arith, length-take n (drop (i + 6) xml), length-drop (i + 6) xml))
  ]
]
