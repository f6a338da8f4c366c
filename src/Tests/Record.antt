-- ===== src/Tests/Record.antt =====
-- src/record.rs, src/encode.rs and the decoding side of src/drain.rs on a record with two arguments.
use ticklog.Base.{◌≡◌, refl, arith, List, [], ◌∷◌, map, some, none, true, ascii}
use ticklog.Decode.{decode_record, read_args}
use ticklog.Decode.RoundTrip.{data_of, decode_record-wire_of, read_args-payloads}
use ticklog.Encode.{Arg, number, text, u32, type_tag, encode}
use ticklog.Encode.Layout.{payloads}
use ticklog.Level.{warn, to_u8}
use ticklog.Memory.{read_bytes}
use ticklog.Record.{assemble, flag_site}
use ticklog.Record.Wire.{wire_of, args_writer, assemble-wire_of}
use ticklog.Ring.Frames.{IsWire}

abbrev two_args : List Arg
two_args = number u32 513 ∷ text (ascii "hi") ∷ []

assemble-wire_of_example :
    let after = assemble (λ _. 0) 64 warn 77 flag_site 4096 2 35 (args_writer two_args) in
    let wire = wire_of warn 77 4096 2 35 two_args in (read_bytes after 64 35 ≡ wire) × IsWire wire
unfolding encode
assemble-wire_of_example =
    assemble-wire_of (λ _. 0) 64 warn 77 4096 35 two_args (omega arith) (omega arith) (omega arith)

decode_record-wire_of_example :
    decode_record (λ s. true) (wire_of warn 77 4096 2 35 two_args) ≡ record {
      level = warn;
      timestamp = 77;
      site = some 4096;
      source = none;
      thread = none;
      tags = map type_tag two_args;
      payload = payloads two_args;
    }
decode_record-wire_of_example =
    decode_record-wire_of (λ s. true) warn 77 4096 35 two_args (omega arith) (omega arith)
      (omega arith)

read_args-payloads_example :
    read_args (map type_tag two_args) (payloads two_args) ≡ some (map data_of two_args)
read_args-payloads_example = read_args-payloads two_args (omega arith, tt)

-- the bytes of the record, written out
wire_bytes :
    wire_of warn 77 4096 2 35 two_args
    ≡ 2 ∷ 1 ∷ 35 ∷ 0 ∷ 2 ∷ 1 ∷ 0 ∷ 0 ∷ 77 ∷ 0 ∷ 0 ∷ 0 ∷ 0 ∷ 0 ∷ 0 ∷ 0 ∷ 0 ∷ 16 ∷ 0 ∷ 0 ∷ 0 ∷ 0 ∷ 0
      ∷ 0 ∷ 2 ∷ 3 ∷ 11 ∷ 1 ∷ 2 ∷ 0 ∷ 0 ∷ 2 ∷ 0 ∷ 104 ∷ 105 ∷ []
unfolding wire_of to_u8 type_tag encode
wire_bytes = refl
