-- ===== src/Nbe/Client/Listen/Examples.antt =====
-- An example of an answer among the packets of another host.
use boiler_mate.Nbe.Client.Listen.Delivery.{listen-send_async}
use boiler_mate.Nbe.Client.Listen.{listen, Read}
use boiler_mate.Nbe.Client.{next_seq, lookup, Nbe, send_async}
use boiler_mate.Nbe.Client.Connect.{buffer_of}
use boiler_mate.Prelude.{
  List, ℕ, ◌≤◌, ◌≡◌, refl, [], ◌∷◌, ◌++◌, Bytes, codes, some, none, arith, length, if◌then◌else◌,
  ◌==◌,
}
use boiler_mate.Prelude.Int.{ℤ, pos, int_eq}
use boiler_mate.Nbe.Action.{ok}
use boiler_mate.Nbe.Response
use boiler_mate.Nbe.Request
use boiler_mate.Nbe.Helpers.{write_string, write_byte, write_ascii_int}
use boiler_mate.Go.Format.{format_int_0, format_int, pad_with, rune_count}
use boiler_mate.Go.Decimal.{decimal}
use boiler_mate.Go.Split.{join}
use boiler_mate.Nbe.Payload.{serialize_payload}
use boiler_mate.Nbe.Response.RoundTrip.{unpack-pack_response}
use boiler_mate.Nbe.Client.Connect.Exchange.{buffer_of-whole}
use boiler_mate.Nbe.Fixtures.{
  whole, client, call, ask_frame, answer_frame, answer_frame-Fits, answer_frame-IsPlain,
}

abbrev host : Bytes
host = codes "192.168.1.100:8483"

abbrev packet : Bytes
packet = (Response.pack whole answer_frame []).1

packet_short : length packet ≤ 1024
unfolding Response.pack write_string write_byte write_ascii_int format_int_0 decimal
    serialize_payload join format_int pad_with rune_count
packet_short = omega arith

abbrev padding : Bytes
padding = (buffer_of-whole packet packet_short).0

packet_read : Response.unpack whole (buffer_of packet) ≡ (ok answer_frame, padding)
packet_read =
    rw (buffer_of-whole packet packet_short).1
      (unpack-pack_response whole answer_frame-Fits refl refl refl answer_frame-IsPlain
        ((refl, tt), (tt, tt)) padding).1

ask_sent : (send_async call ask_frame 5 client).2 ≡ ok (pos 7)
unfolding send_async Request.pack next_seq
ask_sent = refl

-- The same bytes from another host first.
abbrev forged : List Read
forged = some (codes "192.168.1.66:8483", packet) ∷ []

listen-send_async_example :
    (nbe' : Nbe ℕ) × (listen whole host
        (forged ++ (some (host, packet) ∷ forged))
        (send_async call ask_frame 5 client).0
      ≡ (nbe', ok ((5, answer_frame) ∷ [])))
    × ((j : ℤ) → lookup j nbe'.queue ≡ (if pos 7 == j then none else lookup j client.queue))
listen-send_async_example =
    listen-send_async whole host call ask_frame 5 client 6 (pos 7) packet padding answer_frame
      forged forged (omega arith) refl ask_sent packet_read refl (ground arith) (ground arith)
