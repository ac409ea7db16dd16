-- ===== src/Handshake.antt =====
-- The two messages between tracer and library: the address of insert_machine_code, which the library
-- sends when it is loaded (before_main of src/replace_function.cpp, get_lib_addr of
-- src/infrastructure.cpp), and the path of the data, which the tracer sends back (send_data_path and
-- get_data_path). A message is what arrives in one read.
pub mod Messages
pub mod Sockets
pub mod Phases
pub mod Follow
pub mod Delivery
pub mod Startup
pub mod Arrival
use ocolos_public.Prelude.{
  ℕ, zero, suc, ◌+◌, ◌-◌, List, [], ◌∷◌, ◌++◌, Bytes, length, take, ◌==◌, if◌then◌else◌, Option,
  none, some, Outcome, done, exited, undefined, ◌>>=◌, ◌>>◌, ltb,
}
use ocolos_public.Utils.{to_string, convert_str_2_int}
use ocolos_public.Tracee.{fill}

-- `string(buf)`: up to the first NUL; without one in the buffer it is read past its end.
unfoldable pub c_string : Bytes → Outcome Bytes
c_string [] = undefined
c_string (c ∷ s) = let rest = (c_string s >>= λ t. done (c ∷ t)) in if c == 0 then done [] else rest

-- A write of no bytes returns 0, and the sender exits. The NUL behind the text is not sent.
unfoldable pub send : Bytes → Outcome Bytes
send [] = exited
send (c ∷ s) = done (c ∷ s)

-- `strcpy` of a text, with its NUL, into a block of so many bytes.
unfoldable pub strcpy : ℕ → Bytes → Outcome (Unit {0})
strcpy size s = if ltb (length s) size then done tt else undefined

-- `(char*) malloc(text.size())`, the strcpy into it, and the write. `block` says how many bytes of
-- what malloc gives may be written: by the C standard no more than were asked for, which is one too
-- few; by an allocator that rounds up, like that of glibc, often more.
unfoldable pub copy_and_send : (ℕ → ℕ) → Bytes → Outcome Bytes
unfolding strcpy send
copy_and_send block text = strcpy (block (length text)) text >> send text

unfoldable pub before_main : (ℕ → ℕ) → ℕ → Outcome Bytes
unfolding copy_and_send
before_main block insert_machine_code = copy_and_send block (to_string insert_machine_code)

-- A buffer of 100 bytes that holds `junk` before up to 50 bytes are read into it. A read that gives
-- nothing is reported, and the code goes on.
unfoldable pub get_lib_addr : (ℕ → ℕ) → Bytes → Outcome ℕ
unfolding c_string
get_lib_addr junk message =
    let received = take 50 message in
    c_string (received ++ fill junk (length received) (100 - length received)) >>= λ addr.
    done (convert_str_2_int addr)

unfoldable pub send_data_path : (ℕ → ℕ) → Bytes → Outcome Bytes
unfolding copy_and_send
send_data_path block tmp_data_path = copy_and_send block tmp_data_path

-- A buffer of 500 zeros, and up to 80 bytes read into it.
unfoldable pub get_data_path : Bytes → Outcome Bytes
unfolding c_string
get_data_path message =
    let received = take 80 message in
    if length received == 0
    then exited
    else c_string (received ++ fill (λ i. 0) (length received) (500 - length received))
