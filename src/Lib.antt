-- ===== src/Lib.antt =====
-- A model of the parts of libshv that carry its own logic: the RPC values and messages of
-- libshvchainpack with their encoding in ChainPack, the access grants, the serial and stream
-- transports of libshviotqt, and the access control, paths and subscriptions of the broker.
--
-- A message is a value with meta data (Rpc). Its tags hold the request id, the method, the path,
-- the stack of the connections that it came by and the access grant (Access). A connection makes
-- requests and signals (Rpc.Connection). A message is made into a frame, its meta data and its
-- value written in ChainPack (ChainPack, Transport.Messages); the serial transport and the streams
-- write frames and read them (Transport). The broker checks the login and the grant of a request
-- (Acl) and asks the subscriptions of each client (Broker) whether a signal is for it, by the path
-- of the signal (Path).
--
-- Base: helpers. Base.Int has the integers of the model with the wrap-around of the C++ casts,
--   Base.Text byte strings with the tests of std::string_view, Base.Dict a std::map of texts.
-- Access.Level: libshvchainpack/src/accesslevel.cpp (accessLevelToAccessString,
--   accessLevelFromAccessString, accessLevelFromInt). Access.Grant: AccessGrant of
--   libshvchainpack/src/accessgrant.cpp. Access.Tokens: texts separated by commas.
-- Rpc.Value, Rpc.Maps, Rpc.Convert, Rpc.Meta: RpcValue, RpcList, RpcMap, RpcIMap and RpcMetaData of
--   libshvchainpack/src/rpcvalue.cpp. A std::map is an ordered association list. A double is its
--   bits; the double that RpcDecimal::toDouble computes is the parameter Rpc.Convert.Floats. The
--   exception of a NaN that is to be an integer is modelled where bytes are read, frames are
--   received and errors are converted; elsewhere such a number counts as 0.
-- Rpc.Tags, Rpc.CallerIds, Rpc.Message, Rpc.Response: RpcMessage, RpcRequest, RpcResponse and
--   RpcError of libshvchainpack/src/rpcmessage.cpp; a message is the value that it wraps.
-- Rpc.Types: the type names of rpcvalue.cpp. Rpc.Login: UserLogin of accessgrant.cpp.
-- Rpc.Connection: libshvchainpack/src/irpcconnection.cpp; its state is the request counter and
--   the messages sent so far.
-- ChainPack.Bits, Uint, Int, DateTime, Pack, Unpack: libshvchainpack/c/cchainpack.c
--   (significant_bits_part_length, pack_uint_data_helper, unpack_uint, cchainpack_pack_int_data,
--   unpack_int, the other cchainpack_pack functions, cchainpack_unpack_next). What is packed is a
--   list of bytes, and what is left to unpack another; a context's error is an outcome.
--   ChainPack.Writer, ChainPack.Reader: libshvchainpack/src/chainpackwriter.cpp and
--   chainpackreader.cpp. Each value and each round of a loop spends fuel; a reader of a stream gets
--   three rounds for each byte and one more, and each value takes a byte at least.
-- Transport.Crc: libshvchainpack/include/shv/chainpack/crc32.h. Transport.Frames: FrameReader of
--   libshviotqt/src/rpc/socket.cpp. Transport.Serial: SerialFrameReader and SerialFrameWriter of
--   libshviotqt/src/rpc/serialportsocket.cpp. The loop over the bytes is recursion on the list of
--   bytes. The ChainPack and Cpon readers of meta data are the interface
--   Transport.Frames.MetaReader; its hypothesis is that the meta data of a frame end with the
--   frame's head. A std::runtime_error that tryToReadMeta does not catch is a flag of its answer.
-- Transport.Stream, StreamQueue, StreamSession: StreamFrameReader, StreamFrameWriter, FrameWriter
--   and TcpSocket::onDataReadyRead of socket.cpp. The loop of addData has a round for each byte and
--   one more, and a round that goes on takes a byte at least. StreamMeta, StreamRound,
--   StreamDelivery and StreamRoundTrip prove the delivery for any reader of meta data that reads
--   what was written; Transport.ChainPackFrames (RpcFrame of rpcmessage.cpp) and ChainPackDelivery
--   give it the ChainPack reader. Transport.Messages: RpcMessage::toRpcFrame and
--   RpcFrame::toRpcMessage.
-- Path.Prefix: shvpath::startsWithPath of libshvcore/src/utils/shvpath.cpp. Path.Split: getToken and
--   split of libshvcore/src/utils.cpp, ShvPath::splitPath and ShvPath::joinDirs. The loop of split
--   has one more round of fuel than its text has bytes, and each round takes a byte at least.
--   Path.Wild: ShvPath::matchWild, by recursion on the parts of the pattern.
-- Acl.Password, Acl.User: AclPassword, AclUser and AclRole of libshviotqt/src/acl. Acl.Lookup,
--   Flatten, Manager, Resolve, CheckPassword: AclManager of libshvbroker/src/aclmanager.cpp, built
--   without LDAP. Its state is the cache; what a subclass stores is the record Storage, and SHA-1 a
--   parameter. The search through the roles of a role needs more fuel than there are known roles.
-- Broker.Subscription: CommonRpcClientHandle of libshvbroker/src/rpc/commonrpcclienthandle.cpp;
--   its state is the list of the client's subscriptions. Broker.Rule: AclAccessRule of
--   libshviotqt/src/acl/aclroleaccessrules.cpp.
--
-- The other loops follow lists and need no fuel. Indices keep the casts of the code where a
-- property depends on them. Not modelled: logging, Qt's sockets and event loop, the encoding in
-- Cpon (a parameter where frames use it), the texts of dates, the files of AclManagerConfigFiles,
-- LDAP, the journals, the device tree and the user interface.
pub mod Base
pub mod Access
pub mod Rpc
pub mod Transport
pub mod Path
pub mod Acl
pub mod Broker
pub mod ChainPack
pub mod Tests
