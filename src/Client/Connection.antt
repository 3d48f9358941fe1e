-- ===== src/Client/Connection.antt =====
-- The connection of a `Client` (src/database-server/client/client.cc, client.h): the host and port that
-- it is made with, the socket, and how often its readyRead is connected to the slot. What `QTcpSocket` does when it connects and closes, and whether its
-- `openMode` is not `NotOpen`, are parameters.
use daqs.Base.{ℕ, Bool, String}

pub record Connecting (K : Type 0) : Type 0 where
  pub connect_to_host : String → ℕ → K → K
  pub close : K → K
  pub is_open : K → Bool

pub record Client (K : Type 0) : Type 0 where
  pub socket : K
  pub host : String
  pub port : ℕ
  pub slots : ℕ

-- The constructor, which connects the slot; the port is a `uint16_t`. Its other connections write to
-- the log, and pass `connected` on.
abbrev pub new_client : {K : Type 0} → String → ℕ → K → Client K
new_client host port socket = record { socket = socket; host = host; port = port; slots = 1 }

module _ {K : Type 0} (net : Connecting K) where
  abbrev pub connect : Client K → Client K
  connect cl = record cl { socket = net.connect_to_host cl.host cl.port cl.socket }

  abbrev pub is_connected : Client K → Bool
  is_connected cl = net.is_open cl.socket

  -- `~Client`
  abbrev pub closed : Client K → Client K
  closed cl = record cl { socket = net.close cl.socket }
