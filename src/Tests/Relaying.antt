-- ===== src/Tests/Relaying.antt =====
-- relay_raw, relay_from, the parts of an incoming message and the constructors of Outgoing.
use zmqmessage.Base.{some, refl, inl, [], ◌∷◌, none, true, false, arith}
use zmqmessage.Options.{has_option, copy_incoming}
use zmqmessage.Tools.{relay_raw}
use zmqmessage.Tools.Relay.{Relayed, relay_raw-Relayed}
use zmqmessage.Sink.{Sink}
use zmqmessage.Inserting.{outgoing_x, send_incoming_messages, PartRef, insert_part}
use zmqmessage.Inserting.Counted.{
  Tally, relay_from_counted, CountedInto, relay_from_counted-CountedInto,
}
use zmqmessage.Inserting.Range.{PassedOn, ranged, send_incoming_messages-PassedOn}
use zmqmessage.Inserting.Passing.{InsertedFrom, insert_part-InsertedFrom}
use zmqmessage.Inserting.Response.{Led, envelope, outgoing_x-Led}
use zmqmessage.Tests.Samples.{
  Bytes, part, bytes_api, bytes_api-IsMsgApi, open_socket, full_socket, three_parts, three_source,
  three_messages, first_sink,
}

relay_raw-Relayed_example :
    Relayed bytes_api three_source open_socket 0 three_messages [] 0
      (relay_raw bytes_api three_source open_socket 4 false [] 0)
relay_raw-Relayed_example =
    relay_raw-Relayed bytes_api three_source open_socket 4 false three_messages [] 0 (omega arith)
      (omega arith) (inl refl) (refl, refl, (refl, refl, (refl, refl)))

abbrev no_tally : Tally Bytes
no_tally = record { told = []; sizes = [] }

-- Under CACHE_ON_BLOCK and COPY_INCOMING, to a socket that would block.
outgoing_x-Led_example :
    Led bytes_api bytes_api-IsMsgApi full_socket
      (has_option 10 copy_incoming)
      (envelope bytes_api bytes_api-IsMsgApi full_socket three_parts)
      three_parts
      (outgoing_x bytes_api full_socket 10 true none three_parts)
outgoing_x-Led_example =
    outgoing_x-Led bytes_api bytes_api-IsMsgApi full_socket 10 true none three_parts
      (refl, (refl, (refl, tt))) (omega arith)

relay_from_counted-CountedInto_example :
    CountedInto bytes_api bytes_api-IsMsgApi open_socket true three_source
      ((1 ∷ []) ∷ [])
      three_messages
      0
      no_tally
      (relay_from_counted bytes_api open_socket true three_source 4 0 first_sink no_tally)
relay_from_counted-CountedInto_example =
    relay_from_counted-CountedInto bytes_api bytes_api-IsMsgApi open_socket true three_source 4
      ((1 ∷ []) ∷ []) three_messages 0 first_sink no_tally (omega arith) (omega arith) refl
      (refl, refl, (refl, refl, (refl, refl))) (refl, refl, refl)

-- The last two of three parts, copied.
send_incoming_messages-PassedOn_example :
    PassedOn bytes_api bytes_api-IsMsgApi open_socket
      ((1 ∷ []) ∷ [])
      (ranged bytes_api bytes_api-IsMsgApi open_socket three_parts 1 9)
      true
      three_parts
      (send_incoming_messages bytes_api open_socket first_sink three_parts true 1 9)
send_incoming_messages-PassedOn_example =
    send_incoming_messages-PassedOn bytes_api bytes_api-IsMsgApi open_socket three_parts true 1 9
      ((1 ∷ []) ∷ []) first_sink (refl, (refl, (refl, tt))) (omega arith) (refl, refl, refl)

-- A sink under COPY_INCOMING.
abbrev answering_sink : Sink Bytes
answering_sink = record first_sink { options = copy_incoming; incoming = some three_parts }

insert_part-InsertedFrom_example :
    InsertedFrom bytes_api bytes_api-IsMsgApi open_socket
      (has_option copy_incoming copy_incoming)
      ((1 ∷ []) ∷ [])
      three_parts
      2
      (part (3 ∷ []))
      (insert_part bytes_api open_socket answering_sink (PartRef.in_incoming 2))
insert_part-InsertedFrom_example =
    insert_part-InsertedFrom bytes_api bytes_api-IsMsgApi open_socket ((1 ∷ []) ∷ []) answering_sink
      three_parts 2 (part (3 ∷ [])) refl refl refl (omega arith) (refl, refl, refl)
