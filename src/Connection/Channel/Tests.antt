-- ===== src/Connection/Channel/Tests.antt =====
-- Runs of a channel.
use networking_cpp_intro.Common.{
  ◌≡◌, refl, true, false, List, [], ◌∷◌, ◌++◌, arith, All, ◌<◌, length, some, le_bytes, of_le_bytes,
}
use networking_cpp_intro.Message.{Message, empty_message, push}
use networking_cpp_intro.Message.Wire.{header_bytes, payload_bytes, header_of_bytes}
use networking_cpp_intro.Connection.{
  posted_send, reading_header, reading_payload, writing_header, writing_payload, client,
  make_connection, send_data, start, on_posted_send, on_write_header, on_write_payload,
  on_read_header, on_read_payload, add_to_incoming_msg_queue, complete, pop_and_continue,
}
use networking_cpp_intro.Connection.Pending.{is_writing, select}
use networking_cpp_intro.Connection.Steps.{send, completes}
use networking_cpp_intro.Connection.Reader.{first_read, buffer_size}
use networking_cpp_intro.Connection.Reader.Receipt.{Fits}
use networking_cpp_intro.Connection.Channel.{
  Channel, writer_steps, reader_reads, reader_sends, Reach, here, next,
}
use networking_cpp_intro.Connection.Reader.Arrival.{arrivals, remote_of}
use networking_cpp_intro.Connection.Channel.Order.{IsNew, delivered_in_order}
use networking_cpp_intro.Connection.Channel.Quiescence.{all_delivered}

-- A connection that sends, and one that listens.
abbrev new_channel : Channel
new_channel = record {
  writer = record { conn = make_connection client 0 true [] 0 0; sent = []; submitted = [] };
  reader = start reading_header (make_connection client 1 true [] 0 0);
  taken = [];
  wire = [];
}

new_channel-IsNew : IsNew new_channel
unfolding make_connection
new_channel-IsNew = record {
  shaken = refl;
  fresh = record {
    no_write = refl;
    no_message = refl;
    nothing_sent = refl;
    nothing_submitted = refl;
  };
  listening = refl;
  nothing_taken = refl;
  empty_wire = refl;
}

abbrev word : Message
word = push (empty_message 3) (1 ∷ 2 ∷ 3 ∷ 4 ∷ [])

-- One message is sent and read, while the reading side sends another.
word_run :
    (c : Channel) × Reach new_channel c
    × All Fits c.writer.submitted
    × (c.writer.conn.is_open ≡ true)
    × (select is_writing c.writer.conn.pending ≡ [])
    × (first_read c.reader.pending ≡ some reading_header)
    × (length c.wire < buffer_size reading_header c.reader)
unfolding make_connection send_data complete on_posted_send on_write_header on_write_payload
    on_read_header on_read_payload add_to_incoming_msg_queue pop_and_continue push header_bytes
    payload_bytes le_bytes header_of_bytes of_le_bytes
word_run = (
  _,
  next
      (next
        (next
          (next
            (next
              (next (next here (writer_steps _ [] (send word) refl)) (
                writer_steps _ [] (completes [] [] (posted_send word) false [] 0 _ refl refl) refl))
              (writer_steps _ (header_bytes word.header)
                (completes [] [] writing_header false [] 0 _ refl refl) refl))
            (reader_sends (empty_message 7)))
          (writer_steps _ (payload_bytes word)
            (completes [] [] writing_payload false [] 0 _ refl refl) refl))
        (reader_reads reading_header (header_bytes word.header) (payload_bytes word) refl refl
          refl))
      (reader_reads reading_payload (payload_bytes word) [] refl refl refl),
  omega arith,
  refl,
  refl,
  refl,
  omega arith,
)

delivered_in_order_example :
    (done rest : List Message) × (word_run.0.writer.submitted ≡ done ++ rest)
    × (word_run.0.reader.in_msg_queue
        ≡ new_channel.reader.in_msg_queue
          ++ arrivals (remote_of new_channel.reader) new_channel.reader.tmp_input_msg done)
delivered_in_order_example = delivered_in_order new_channel-IsNew word_run.1 word_run.2

all_delivered_example :
    (word_run.0.writer.conn.out_msg_queue ≡ [])
    × (word_run.0.reader.in_msg_queue
        ≡ new_channel.reader.in_msg_queue
          ++ arrivals
              (remote_of new_channel.reader)
              new_channel.reader.tmp_input_msg
              word_run.0.writer.submitted)
all_delivered_example =
    all_delivered reading_header new_channel-IsNew word_run.1 word_run.2 word_run.3 word_run.4
      word_run.5 word_run.6
