-- ===== src/Errors/ErrorMessages.antt =====
-- `struct ErrorMessages` of include/barbarossa/errors.hpp.
use barbarossa.Common.{String}

abbrev pub transport_connection_failed : String
transport_connection_failed = "transport failed to connect"

abbrev pub transport_already_connected : String
transport_already_connected = "transport already connected"

abbrev pub transport_already_disconnected : String
transport_already_disconnected = "transport already disconnected"

abbrev pub transport_handler_already_attached : String
transport_handler_already_attached = "transport handler already attached"

abbrev pub transport_handler_already_detached : String
transport_handler_already_detached = "transport handler already detached"

abbrev pub session_already_joined : String
session_already_joined = "session already joined"

abbrev pub session_not_joined : String
session_not_joined = "session not joined"

abbrev pub session_not_attached : String
session_not_attached = "session not attached"

abbrev pub session_transport_already_detached : String
session_transport_already_detached = "session transport already detached"

abbrev pub session_transport_already_attached : String
session_transport_already_attached = "session transport already attached"

abbrev pub invalid_message_structure : String
invalid_message_structure = "invalid message structure"
