-- ===== src/Msg/Tests.antt =====
-- The messages of msg.c on examples.
use co_d4x_client_pub.Common.{ℕ, ◌≡◌, refl, inl, arith, false, some, List, [], ◌∷◌, map, replicate}
use co_d4x_client_pub.Msg.{Msg, init, begin_reading, write_bits, write_entity_index, write_string}
use co_d4x_client_pub.Msg.Read.{
  read_bits, read_entity_index, read_string, translate, advance, overflow,
}
use co_d4x_client_pub.Msg.Bounds.{WriteOp, IsWritable, run_all, run_all-IsWritable}
use co_d4x_client_pub.Msg.Fields.{
  Field, write_fields, read_fields, kind_of, read_fields-write_fields,
}
use co_d4x_client_pub.Msg.Text.{read_string-write_string, read_string_unterminated}
use co_d4x_client_pub.Msg.Bitstream.{IsClean, reader_at, read_bits-write_bits}
use co_d4x_client_pub.Msg.Entity.{read_entity_index-write_entity_index}

abbrev storage : List ℕ
storage = replicate 24 0

abbrev fields : List Field
fields = Field.byte 7 ∷ Field.short 513 ∷ Field.long 70000 ∷ Field.bytes (1 ∷ 2 ∷ []) ∷ []

read_fields-write_fields_example :
    let m = write_fields (init storage 24) fields in
    let r = read_fields (begin_reading m) (map kind_of fields) in
    (m.overflowed ≡ false) × (r.0 ≡ fields) × (r.1.readcount ≡ m.cursize) × (r.1.overflowed ≡ false)
read_fields-write_fields_example =
    read_fields-write_fields fields storage 24
      (omega arith, (inl (omega arith), (omega arith, ((omega arith, (omega arith, tt)), tt))))
      (omega arith) (omega arith)

abbrev small : Msg
small = init (replicate 3 0) 3

abbrev calls : List WriteOp
calls = WriteOp.byte 1 ∷ WriteOp.bits 5 3 ∷ WriteOp.long 9 ∷ WriteOp.text (some (65 ∷ [])) ∷ []

run_all-IsWritable_example : IsWritable (run_all small calls)
unfolding init
run_all-IsWritable_example =
    run_all-IsWritable calls small (tt, (omega arith, (tt, (tt, tt))))
      (record { storage = omega arith; filled = omega arith; bits_in = omega arith })

abbrev empty : Msg
empty = init storage 24

empty-IsClean : IsClean empty
unfolding init
empty-IsClean = record {
  storage = omega arith;
  filled = omega arith;
  bits_in = omega arith;
  clear = inl refl;
}

read_bits-write_bits_example :
    read_bits (reader_at empty (write_bits empty 5 3)) 3
    ≡ (5, reader_at (write_bits empty 5 3) (write_bits empty 5 3))
unfolding init
read_bits-write_bits_example =
    read_bits-write_bits 3 5 empty empty-IsClean (omega arith) (omega arith) (omega arith)
      (omega arith)

read_entity_index-write_entity_index_example :
    (read_entity_index
      (record (reader_at empty (write_entity_index empty 20 10)) {
        last_ref_entity = empty.last_ref_entity;
      })
      10).0
    ≡ 20
unfolding init
read_entity_index-write_entity_index_example =
    read_entity_index-write_entity_index 10 20 empty empty-IsClean (omega arith) (omega arith)
      (omega arith) (omega arith) (omega arith) (omega arith)

-- "A%" and its end, and one byte more.
abbrev text : List ℕ
text = 65 ∷ 37 ∷ []

abbrev with_text : Msg
with_text = record (init (65 ∷ 37 ∷ 0 ∷ 9 ∷ []) 4) { cursize = 4 }

read_string-write_string_example :
    (read_string (write_string empty (some text)) 16).0 ≡ map translate text
unfolding init
read_string-write_string_example =
    read_string-write_string text empty 16
      ((omega arith, omega arith), ((omega arith, omega arith), tt)) (omega arith)
      (omega arith, omega arith) refl (omega arith)

abbrev cut_text : Msg
cut_text = record (init (65 ∷ 37 ∷ []) 2) { cursize = 2 }

read_string_unterminated_example :
    read_string cut_text 16 ≡ (map translate text, overflow (advance 2 cut_text))
unfolding init
read_string_unterminated_example =
    read_string_unterminated text 16 cut_text (omega arith)
      ((omega arith, omega arith), ((omega arith, omega arith), tt)) refl (omega arith)
