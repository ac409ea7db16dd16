-- ===== src/Tests/Tracee.antt =====
-- src/replace_function.cpp on a small kernel.
use ocolos_public.Prelude.{ℕ, true, List, [], ◌∷◌, some, All, Safe, arith}
use ocolos_public.Records.{Record, IsRecord, write_records}
use ocolos_public.Tracee.Files.{
  insert_code_to_orig_text_sec, insert_bolted_function, insert_machine_code,
}
use ocolos_public.Tracee.Pages.{Refused}
use ocolos_public.Tracee.Replacement.{
  Patched, insert_code_to_orig_text_sec-Patched, Moved, insert_bolted_function-Moved, Replaced,
  insert_machine_code-writes,
}
use ocolos_public.Tests.Models.{plain_kernel, plain_kernel-IsKernel, text_pages}

abbrev nothing : ℕ → ℕ
nothing i = 0

abbrev pub text_records : List Record
text_records = record { address = 4100; code = 232 ∷ 1 ∷ 0 ∷ 0 ∷ 0 ∷ [] } ∷ []

abbrev pub bolted_records : List Record
bolted_records = record { address = 65536; code = 85 ∷ 195 ∷ [] } ∷ []

pub text_records-IsRecord : All IsRecord text_records
text_records-IsRecord =
    (record { some_code = omega arith; fits = omega arith; are_bytes = ground arith }, tt)

pub bolted_records-IsRecord : All IsRecord bolted_records
bolted_records-IsRecord =
    (record { some_code = omega arith; fits = omega arith; are_bytes = ground arith }, tt)

insert_code_to_orig_text_sec-Patched_example :
    Safe
      (Refused plain_kernel)
      (Patched plain_kernel plain_kernel-IsKernel nothing 0 text_records text_pages)
      (insert_code_to_orig_text_sec plain_kernel nothing 0 (write_records text_records) text_pages)
insert_code_to_orig_text_sec-Patched_example =
    insert_code_to_orig_text_sec-Patched plain_kernel plain_kernel-IsKernel nothing 0 text_records
      text_pages text_records-IsRecord (omega arith, tt)

insert_bolted_function-Moved_example :
    Safe
      (Refused plain_kernel)
      (Moved plain_kernel plain_kernel-IsKernel nothing 0 bolted_records text_pages)
      (insert_bolted_function plain_kernel nothing 0
        (some (write_records bolted_records))
        text_pages)
insert_bolted_function-Moved_example =
    insert_bolted_function-Moved plain_kernel plain_kernel-IsKernel nothing 0 bolted_records
      text_pages bolted_records-IsRecord (omega arith, tt)

insert_machine_code-writes_example :
    Safe
      (Refused plain_kernel)
      (Replaced plain_kernel plain_kernel-IsKernel nothing bolted_records text_records []
        text_records)
      (insert_machine_code plain_kernel nothing true
        (some (write_records bolted_records))
        (some (write_records text_records))
        (some (write_records []))
        (some (write_records text_records))
        text_pages)
insert_machine_code-writes_example =
    insert_machine_code-writes plain_kernel plain_kernel-IsKernel nothing bolted_records
      text_records [] text_records text_pages bolted_records-IsRecord text_records-IsRecord tt
      text_records-IsRecord
