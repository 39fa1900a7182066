-- ===== src/Lib.antt =====
-- A verification library for esp8266-dns, the firmware of an ESP-01 that keeps a DNS name on its
-- home address, reads one sensor and drives one actuator.
--
-- The program is a loop (App.h) that gives every service a turn. The services are headers of the
-- repository's root, and each of them is a part here:
--   * Iot: the sensor and the actuator. Iot/Catalog is IoTCatalog.h (the tables and their
--     searches), Iot/Command is IoTCommand.h (parseCommand with the loops of _number and _hexColor,
--     commandAllowed), Iot/Config is IoTConfig of Config.h. IoTService.h is in Iot/Rule (_rule,
--     _mapDuty, _deg, _inUnit), Iot/Hours (localMinute, inHours), Iot/Service (the state, _drive,
--     _describe, _changed, _persist, _takeRule, _setOn, _turnOn), Iot/Sensor (_tickSensor for a
--     digital input, _onDigital, _report, _fail, _accept) and Iot/Control (command, run and tick).
--     A fact about rows of events is about `steps`, in which commands and ticks come in any order.
--   * NetArbiter: NetArbiter.h, the turns that the services take on the network and the heap.
--   * Totp: Totp.h, authenticator codes and the texts of their key, for the sign-in to the panel.
--   * ReverseDns: ReverseDNS.h, query and parse with _skip and _name.
--   * JsonStream: JsonStream.h, the reader of the answers of Cloudflare. A write that is not inside its
--     array sets `overrun`, which is not of the code.
--   * Wifi: WiFiService.h, the association, the setup access point and the watchdogs.
--   * WsClient: WsClient.h, the frames of the tunnel to the relay.
--   * Logger: Logger.h, the ring of the last lines.
--   * Json: Json.h. Json itself is the reader (object, members and what they call), Json/Decode is
--     copy and str, Json/Writer the writer of a flat object.
--   * Iot/Saved: IoTState.h, load and save of /iot.state, on top of Json.
--   * HttpServer: HttpServer.h. HttpServer itself is _parse, HttpServer/Link is _getc and the code
--     of an error, HttpServer/Arguments is _find, arg and the decoding of a value, HttpServer/Output
--     is the response, gathered into segments.
--   * Mqtt: MqttService.h. Mqtt has the state and the counters, Mqtt/Broker is parseBroker,
--     Mqtt/Packet the packets both ways, Mqtt/Machine is _connect and tick.
--   * Relay: RelayService.h, the tunnel to the Worker. Relay has the state and what the other services
--     ask of it, Relay/Frames _frame, _request, _hello and _sendState, Relay/Machine _connect, _pump
--     and tick.
--   * PublicIp: PublicIPResolver.h, when the public address is checked, and what a change of it does.
--   * Clock: Clock.h, which server of the time is asked, and when.
--   * Store: ConfigStore.h. Store/Table is FIELDS, Store/File load (without the migration of
--     version 1), save, _member, _set, _find and _write. The configuration is the row of the values of
--     the table; what the file system keeps of the bytes that are written is an argument.
--   * Panel: WebService.h, who may use the panel. Panel/Tries is Throttle, Panel/Host _hostOk,
--     Panel/Session the session, its cookie, the tokens of the forms and the guards, Panel/Proof what a
--     form proves, Panel/SignIn the handlers of the sign-in, Panel/Api the token of the API, Panel/Escape
--     _e, the escaping of a text in a page.
--   * Password: Password.h, derive, check, hashed, _text and _same with the hexadecimal texts.
-- The definitions keep the names of the functions in snake_case, without the leading underscore.
-- Base has what all of them use: tests, lists of bytes, machine words, decimal and hexadecimal text.
--
-- State is a record that an operation takes and returns. What the code does to pins, files, the log
-- and the radio is a list of effects in that record, the last first; what it reads from them (the
-- time, the heap, the pin, the state of the connection) is an argument. Numbers are natural numbers
-- with the wrap of their type written out: `unsigned long` and `size_t` have 32 bits, and a time
-- that is compared across the wrap of millis() is compared by `sub32` or `reached`. An `int` of a
-- reading or a limit is an integer; Iot/Rule says where that is exact. A text is the list of its
-- bytes before the terminating zero.
--
-- Loops are recursion on the text or on fuel. Fuel is the count of rounds that can happen at most:
-- the bits of a buffer (Totp.b32_emit), the bytes of a message (ReverseDns.skip, WsClient.masked),
-- the bytes left of a frame (WsClient.read), 8 jumps with a message's bytes between them
-- (ReverseDns.name_at). In ReverseDns a loop without fuel has the same outcome as a read out of
-- bounds, which is excluded for every message. Json counts two steps for each byte of the text, since
-- of two calls of its recursion one takes a byte, and two more; `spent` says that they ran out.
-- HttpServer has one round for each byte of a value (url_decode) or a text (put), and max_headers
-- rounds for the headers, the source's own bound; Mqtt has five bytes for a length (28 bits need
-- four), and a round for each byte that waits on the link.
--
-- The HMAC of BearSSL is a parameter of Totp, of Password, of Panel and of Store. IPAddress::fromString gives the address
-- that ReverseDns.query takes. The drivers of the sensors (DHT, 1-Wire, I2C, ultrasonic) give a
-- reading to Iot/Control. Mqtt takes the JSON of the state, the texts of the discovery and the answer
-- of the broker to the connection as arguments, and Relay what HttpServer writes for a request, the
-- keyed hash of the API token and the frames of WsClient. The labels of the panel are left out of the
-- catalogue, and the texts of the log out of Wifi, Mqtt and Relay. Not modelled: the panel's pages
-- and the forms of its settings (WebService.h), ntfy, the updates, the Cloudflare clients, the HTTPS query of the public
-- address, the migration of a configuration of
-- version 1, deep sleep, and what is generated, timed in assembly, or
-- glue to TLS.
pub mod Base
pub mod Clock
pub mod HttpServer
pub mod Iot
pub mod Json
pub mod JsonStream
pub mod Logger
pub mod Mqtt
pub mod NetArbiter
pub mod Panel
pub mod Password
pub mod PublicIp
pub mod Relay
pub mod ReverseDns
pub mod Store
pub mod Totp
pub mod Wifi
pub mod WsClient
