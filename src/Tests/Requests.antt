-- ===== src/Tests/Requests.antt =====
-- Runs of the theorems on requests.
use sing_quic_rs.Prelude.{ℕ, ◌≡◌, refl, true, some, List, [], ◌∷◌, ◌++◌, arith}
use sing_quic_rs.Prelude.Map.{bytes_key}
use sing_quic_rs.Prelude.Bytes.{be_u16}
use sing_quic_rs.Error.{ok}
use sing_quic_rs.Text.{is_ascii, is_utf8, contains}
use sing_quic_rs.Decimal.{to_decimal}
use sing_quic_rs.Address.{display}
use sing_quic_rs.VarInt.{tag_first, fill, encoded_length}
use sing_quic_rs.Hysteria2.Protocol.{padding}
use sing_quic_rs.Hysteria2.Masquerade.{collect}
use sing_quic_rs.Hysteria2.Masquerade.Replies.{IsWithin, collect-IsWithin}
use sing_quic_rs.ShadowQuic.Wire.{encode_address, encode_host, domain_frame, encode_connect}
use sing_quic_rs.ShadowQuic.Wire.Codec.{seen}
use sing_quic_rs.ShadowQuic.Server.{
  jls, accepted_stream, returned, handle_bi_stream, chosen_user, wait_for_sunny_auth,
}
use sing_quic_rs.ShadowQuic.Server.Authentication.{fresh_shared}
use sing_quic_rs.ShadowQuic.Client.{connect_request}
use sing_quic_rs.ShadowQuic.Client.Requests.{connect-accepted}
use sing_quic_rs.Tests.Samples.{
  names, names-IsNetText, site, site-IsValid, site-IsCanonical, lowest, lowest-IsRng,
}
use sing_quic_rs.Writer.{Sink, push}
use sing_quic_rs.Hysteria2.Stream.{handle_stream}
use sing_quic_rs.Hysteria2.Client.Connections.{connect}
use sing_quic_rs.Hysteria2.Client.Streams.{connect-handle_stream}

collect-IsWithin_example : IsWithin (collect [] (some (1 ∷ []) ∷ some (2 ∷ []) ∷ []))
collect-IsWithin_example = collect-IsWithin (some (1 ∷ []) ∷ some (2 ∷ []) ∷ [])

abbrev site_request : List ℕ
site_request = 1 ∷ 3 ∷ 2 ∷ b'a' ∷ b'b' ∷ be_u16 80

connect-accepted_example :
    handle_bi_stream names jls (b'u' ∷ []) (site_request ++ (9 ∷ [])) fresh_shared
    ≡ returned (ok tt) (record fresh_shared {
      accepted = accepted_stream (seen names site) (chosen_user (b'u' ∷ []) []) ∷ [];
    })
unfolding connect_request encode_connect encode_address encode_host domain_frame is_ascii
    wait_for_sunny_auth
connect-accepted_example =
    connect-accepted names jls (b'u' ∷ []) [] site_request (9 ∷ []) site fresh_shared
      names-IsNetText site-IsValid refl refl refl

abbrev roomy : Sink
roomy = record { written = []; budget = 10_000 }

connect-handle_stream_example :
    (request : List ℕ) × (response : List ℕ) × (handle_stream names lowest
        (b'u' ∷ [])
        true
        (request ++ (1 ∷ []))
        roomy
      ≡ ok (record {
        destination = site;
        user = b'u' ∷ [];
        unread = 1 ∷ [];
        sink = push roomy response;
      }))
    × (connect lowest site (response ++ (2 ∷ [])) roomy ≡ (ok (tt, 2 ∷ []), push roomy request))
unfolding is_utf8 display contains to_decimal tag_first fill encoded_length padding
connect-handle_stream_example =
    connect-handle_stream names lowest lowest (b'u' ∷ []) site (1 ∷ []) (2 ∷ []) roomy roomy
      lowest-IsRng lowest-IsRng site-IsCanonical refl (omega arith) (omega arith) (omega arith)
