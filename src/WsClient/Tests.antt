-- ===== src/WsClient/Tests.antt =====
-- WsClient.h at concrete inputs.
use esp8266_dns.Base.{arith, codes, false, refl, some, take, true, ◌++◌, ◌-◌, ◌≡◌}
use esp8266_dns.WsClient.{WsClient, frame, read, send}
use esp8266_dns.WsClient.Receive.{read-server_frame, server_frame}
use esp8266_dns.WsClient.Send.{receive, receive-send}

abbrev client : WsClient
client = record {
  op = 0;
  left = 0;
  error = false;
  input = server_frame 2 (codes "hello") ++ codes "!";
}

receive-send_example :
    receive (send 2 (codes "ab") (codes "cd") 305419896) ≡ some (2, codes "ab" ++ codes "cd")
receive-send_example =
    receive-send 2 305419896 (codes "ab") (codes "cd") (omega arith) (omega arith) (ground arith)

read-server_frame_example :
    let framed = frame 8 client in
    (framed.1 ≡ true)
    × (read 4 framed.0
        ≡ (record client { op = 2; left = 0; input = codes "!" }, take (4 - 1) (codes "hello")))
read-server_frame_example =
    read-server_frame 8 2 4 (codes "hello") (codes "!") client (omega arith) (omega arith)
      (omega arith) (omega arith) (omega arith) refl
