-- ===== src/Tests/Message.antt =====
-- pkg/message.go: a message on the wire, a writer with little room, and a stream in parts.
use Prim.Native.Nat.{min}
use control_protocol.Prelude.{
  ℕ, ◌-◌, ◌≤◌, ◌≡◌, refl, none, some, List, [], ◌∷◌, ◌++◌, arith, ltb, if◌then◌else◌, length, take,
  true,
}
use control_protocol.Errors.{plain, eof}
use control_protocol.Wire.BigEndian.{put_uint32, uint32}
use control_protocol.Wire.Stream.{Stream, chunk, read_full}
use control_protocol.Wire.Writer.{Writer, WriteResult}
use control_protocol.Message.{
  Message, zero_header, zero_message, check, new_message, with_version, with_flags,
  message_header_from_bytes, read_from, write_to,
}
use control_protocol.Message.Format.{encode, header_bytes, IsWellFormed}
use control_protocol.Message.RoundTrip.{Reads, read_from-encode}
use control_protocol.Message.Truncated.{IsCut, read_from-IsCut}

-- A buffer with a limit.
pub record Buffer : Type 0 where
  pub room : ℕ
  pub held : List ℕ

abbrev pub write_buffer : Buffer → List ℕ → WriteResult Buffer
write_buffer w p = record {
  writer = record { room = w.room - length p; held = w.held ++ take (min w.room (length p)) p };
  count = min w.room (length p);
  error = if ltb w.room (length p) then some (plain []) else none;
}

pub write_buffer_all :
    (w : Buffer) (p : List ℕ)
    → (write_buffer w p).error ≡ none
    → (write_buffer w p).count ≡ length p
write_buffer_all w p h = ground arith

pub write_buffer_le : (w : Buffer) (p : List ℕ) → (write_buffer w p).count ≤ length p
write_buffer_le w p = omega arith

abbrev pub buffers : Writer Buffer
buffers = record {
  write = write_buffer;
  sent = λ w. w.held;
  write_prefix = λ w p. refl;
  write_le = write_buffer_le;
  write_all = write_buffer_all;
}

abbrev pub uuid : List ℕ
uuid = 1 ∷ 2 ∷ 3 ∷ 4 ∷ 5 ∷ 6 ∷ 7 ∷ 8 ∷ 9 ∷ 10 ∷ 11 ∷ 12 ∷ 13 ∷ 14 ∷ 15 ∷ 16 ∷ []

abbrev pub hello : Message
hello = record {
  header = record { version = 0; flags = 0; opcode = 7; uuid = uuid; size = 3 };
  payload = some (104 ∷ 105 ∷ 33 ∷ []);
}

abbrev pub hello_bytes : List ℕ
hello_bytes = 0 ∷ 0 ∷ 0 ∷ 7 ∷ (uuid ++ 0 ∷ 0 ∷ 0 ∷ 3 ∷ 104 ∷ 105 ∷ 33 ∷ [])

new_message_runs : new_message uuid 7 (some (104 ∷ 105 ∷ 33 ∷ [])) [] ≡ hello
unfolding new_message
new_message_runs = refl

new_message_options :
    (new_message uuid 7 none (with_version 1 ∷ with_flags 5 ∷ [])).header
    ≡ record { version = 1; flags = 5; opcode = 7; uuid = uuid; size = 0 }
unfolding new_message with_version with_flags
new_message_options = refl

check_runs : check (new_message uuid 7 none (with_flags 5 ∷ [])).header 4 ≡ true
unfolding check new_message with_flags
check_runs = refl

encode_runs : encode hello ≡ hello_bytes
unfolding encode header_bytes put_uint32
encode_runs = refl

write_to_runs :
    (write_to buffers hello (record { room = 100; held = [] })).writer.held ≡ hello_bytes
unfolding write_to put_uint32
write_to_runs = refl

pub hello-IsWellFormed : IsWellFormed hello
hello-IsWellFormed = record { uuid_length = refl; size_exact = refl; size_fits = omega arith }

abbrev in_parts : Stream
in_parts =
    chunk (0 ∷ 0 ∷ [])
    ∷ chunk []
    ∷ chunk (0 ∷ 7 ∷ uuid ++ 0 ∷ 0 ∷ 0 ∷ 3 ∷ 104 ∷ [])
    ∷ chunk (105 ∷ 33 ∷ 77 ∷ [])
    ∷ []

read_from_runs : (read_from zero_message in_parts).message ≡ hello
unfolding read_from read_full message_header_from_bytes uint32
read_from_runs = refl

read_from-encode_example : Reads hello (77 ∷ []) (read_from zero_message in_parts)
unfolding encode header_bytes put_uint32
read_from-encode_example =
    read_from-encode hello zero_header (77 ∷ []) in_parts hello-IsWellFormed tt refl

abbrev cut_off : Stream
cut_off = chunk (0 ∷ 0 ∷ []) ∷ chunk (0 ∷ 7 ∷ uuid ++ 0 ∷ 0 ∷ 0 ∷ 3 ∷ []) ∷ []

read_from-IsCut_example : IsCut cut_off (read_from zero_message cut_off)
unfolding encode header_bytes put_uint32
read_from-IsCut_example =
    read_from-IsCut hello zero_header cut_off (104 ∷ 105 ∷ 33 ∷ []) hello-IsWellFormed tt refl
      (omega arith)

-- A header whose payload has not begun ends in a plain `io.EOF`.
cut_off_runs : (read_from zero_message cut_off).error ≡ some eof
unfolding read_from read_full message_header_from_bytes uint32
cut_off_runs = refl
