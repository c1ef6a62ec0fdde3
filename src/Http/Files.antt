-- ===== src/Http/Files.antt =====
-- The second half of serve_static_file of http/request_handler.c: the range that is asked for, the
-- numbers of the header, and the body. What sscanf stores, the file and the answers of send are
-- arguments; the text of the header and an overflow of `long` are left out.
pub mod Ranges
use caligo_engine.Base.{
  ℕ, zero, suc, ◌+◌, ◌-◌, ◌%◌, ◌^◌, Bool, true, false, Option, none, some, List, [], ◌∷◌, ◌++◌,
  length, take, drop, leb, ◌==◌, if◌then◌else◌,
}
use caligo_engine.Base.Decimal.{decimal}

-- `long`
pub data ℤ : Type 0 where
  pos negsuc : ℕ → ℤ

-- a - b
unfoldable pub diff : ℕ → ℕ → ℤ
diff a b = if leb b a then pos (a - b) else negsuc (b - a - 1)

unfoldable pub minus : ℤ → ℤ → ℤ
minus (pos a) (pos b) = diff a b
minus (pos a) (negsuc b) = pos (a + b + 1)
minus (negsuc a) (pos b) = negsuc (a + b)
minus (negsuc a) (negsuc b) = diff b a

unfoldable pub increment : ℤ → ℤ
increment (pos n) = pos (n + 1)
increment (negsuc zero) = pos 0
increment (negsuc (suc n)) = negsuc n

unfoldable pub opposite : ℕ → ℤ
opposite zero = pos 0
opposite (suc n) = negsuc n

-- What printf writes for %d and %ld.
unfoldable pub print_int : ℤ → List ℕ
print_int (pos n) = decimal n
print_int (negsuc n) = b'-' ∷ decimal (n + 1)

-- The conversion to size_t.
unfoldable pub to_size : ℤ → ℕ
to_size (pos n) = n % 2 ^ 64
to_size (negsuc n) = 2 ^ 64 - 1 - n % 2 ^ 64

-- What the two calls of sscanf find in a Range header: both numbers, the first, or none.
pub data Scanned : Type 0 where
  both : ℤ → ℤ → Scanned
  first : ℤ → Scanned
  neither : Scanned

pub record Range : Type 0 where
  pub status_code : ℕ
  pub start_byte : ℤ
  pub end_byte : ℤ

-- The range of a file of this size, where `none` is a request with no Range header.
unfoldable pub find_range : ℕ → Option Scanned → Range
find_range file_size none = record {
  status_code = 200;
  start_byte = pos 0;
  end_byte = diff file_size 1;
}
find_range file_size (some (both start_byte end_byte)) = record {
  status_code = 206;
  start_byte = start_byte;
  end_byte = end_byte;
}
find_range file_size (some (first start_byte)) = record {
  status_code = 206;
  start_byte = start_byte;
  end_byte = diff file_size 1;
}
find_range file_size (some neither) = record {
  status_code = 206;
  start_byte = pos 0;
  end_byte = diff file_size 1;
}

unfoldable pub content_length : Range → ℤ
content_length r = increment (minus r.end_byte r.start_byte)

-- fseek from the start of the file, which fails on a negative offset: what is left to read.
unfoldable pub seek : ℤ → List ℕ → List ℕ
seek (pos n) file = drop n file
seek (negsuc n) file = file

-- What send answers; how much it took is not looked at.
pub data Answer : Type 0 where
  took : ℕ → Answer
  failed : Answer

abbrev pub buffer_size : ℕ
buffer_size = 4096

unfoldable pub bytes_to_read : ℕ → ℕ
bytes_to_read bytes_to_send = if leb bytes_to_send buffer_size then bytes_to_send else buffer_size

unfoldable pub send_read : Answer → List ℕ → List ℕ → List ℕ
send_read failed [] more = []
send_read (took n) [] more = []
send_read failed (b ∷ piece) more = []
send_read (took n) (b ∷ piece) more = take n (b ∷ piece) ++ more

-- The loop that reads and sends, with the answers by the number of the round: the bytes that go out.
unfoldable pub send_loop : ℕ → (ℕ → Answer) → ℕ → ℕ → List ℕ → List ℕ
send_loop zero answers k bytes_to_send file = []
send_loop (suc fuel) answers k bytes_to_send file =
    let piece = take (bytes_to_read bytes_to_send) file in
    let more =
      send_loop fuel answers (k + 1) (bytes_to_send - length piece) (drop (length piece) file) in
    if bytes_to_send == 0 then [] else send_read (answers k) piece more

-- The numbers of the header, and the body. Every round but the last reads a byte at least.
unfoldable pub serve_file : (ℕ → Answer) → Option Scanned → List ℕ → Range × ℤ × List ℕ
serve_file answers scanned file =
    let r = find_range (length file) scanned in
    let rest = seek r.start_byte file in
    (r, content_length r, send_loop (suc (length file)) answers 0 (to_size (content_length r)) rest)
