-- ===== src/Lib.antt =====
-- VCamES: a verification library for the native daemon of the virtual camera.
--
-- The daemon `vcamesd` takes START, STOP and STATUS requests on a control socket, runs FFmpeg on a
-- network URL or takes frames from a local producer, turns frames into MJPEG of a fixed format and
-- writes them to a v4l2loopback device. This library models its C++ code as total functions.
--
-- Files and what they model (paths from the root of the repository):
-- - Common, Common/*: numbers, lists, byte strings (`std::string` is a list of bytes) and `int`.
-- - Failure: the errors, one constructor for each text that the source writes to `*error`, and the
--   chain of checks. An `error` pointer that is null only drops that text; it is not modelled.
-- - Stream, Stream/Url, Stream/Ffmpeg: daemon/src/stream_source.cpp. `parse_stream_source_url` is
--   ParseStreamSourceUrl, cut at its table lookup; `build_ffmpeg_arguments` is BuildFfmpegArguments.
-- - Config, Config/Valid, Config/Command, Config/Json: daemon/src/config.cpp. `validate` is
--   Config::Validate, `parse_command` is ParseCommand, `json_escape` is JsonEscape. The order in
--   which a hash map is walked is a parameter, `iteration_order`; what is assumed of it is that a
--   walk visits each entry once (`Visits`).
-- - Mjpeg, Mjpeg/Scan, Mjpeg/Drain, Mjpeg/Chunks, Mjpeg/Stream, Mjpeg/Frames:
--   daemon/src/mjpeg_parser.cpp. `append` is MjpegParser::Append; the frames that it passes to the
--   callback are part of its result. Its loop `drain` runs on fuel, one more than the bytes that are
--   buffered: each round but the last takes a frame of at least four bytes away. `feed` is the read
--   loop of FfmpegSource::Stream in daemon/src/ffmpeg_source.cpp.
-- - Yuv, Yuv/Bounds, Yuv/Reference, Yuv/Convert, Yuv/Inside: native/yuv420_converter.cpp. A plane is a view of a
--   memory that is read by address; `size_t` has 64 bits. `convert_yuv420_to_nv21` is
--   ConvertYuv420ToNv21; its result is the bytes written so far, from the start of the output on.
-- - Yuv/Jni: app/src/main/cpp/yuv420_jni.cpp. `plane` is Plane and `native_convert` nativeConvert; the
--   address and the capacity of a buffer are arguments.
-- - Arguments, Arguments/Names, Arguments/Safe, Arguments/Proxy: the command lines of daemon/src/main.cpp and
--   daemon/src/socket_proxy.cpp.
--   `parse_arguments` and `parse_options` are ParseArguments and ParseOptions, without the name of the
--   program; a command line that is refused ends the program.
-- - Jpeg, Jpeg/Total, Jpeg/RoundTrip: ReadJpegDimensions of daemon/src/image_transform.cpp. The loop
--   `scan` runs on fuel, the length of the vector: each round passes at least one byte.
-- - Image, Image/Gather, Image/Stb, Image/Nv21, Image/Rgb, Image/FromJpeg, Image/ToJpeg and the files
--   below them: the rest of daemon/src/image_transform.cpp. `transform_nv21`, `transform_jpeg_to_nv21`,
--   `transform_jpeg`, `nv21_to_jpeg` and `create_solid_jpeg` are its functions; a loop over pixels is
--   `grid`, which collects what each pixel writes, and a read outside a buffer gives `none`. The
--   operations on `float` are a record of functions, Floats, and so are the two calls of stb_image, Stb.
--   What a theorem needs of them is a hypothesis: IsExact, IsClamped and DecodesWell; Image/Halves has
--   numbers that meet the first two. Products of two `int` sizes do not wrap a `size_t`.
-- - Engine/Pictures: the options that WriterLoop of daemon/src/engine.cpp gives to those functions.
-- - V4l2Sink, V4l2Sink/Open, V4l2Sink/Accepts, V4l2Sink/Write: daemon/src/v4l2_sink.cpp. The answers
--   of the kernel are arguments, a list for each call that may be repeated; a result `none` says that
--   the list is used up and the call still waits. `open_device`, `write_frame` and `close` are
--   V4l2Sink::Open, Write and Close; the state has the descriptors that the process has open.
-- - Engine, Engine/Start, Engine/Placeholder, Engine/Writer, Engine/Session,
--   Engine/Session/Books, Engine/Session/Steps, Engine/Session/Accounting, Engine/Backoff:
--   daemon/src/engine.cpp. Each region under the mutex is a function of the state; `run` takes them in
--   any order, the writer's in the order of its loop (`Phase`). `start_engine`, `stop_engine`,
--   `push_frame`, `push_nv21_frame` and `publish_frame` are Start, Stop, PushFrame, PushNv21Frame and
--   PublishFrame; `take_frame`, `transform_step` and `write_step` are the parts of WriterLoop,
--   `connect`, `end_stream` and `source_waits` those of SourceLoop. The image transforms that the
--   writer calls are a record of functions, ImageTransform; the clock is an argument of each step.
-- - FrameSocket, FrameSocket/Read, FrameSocket/RoundTrip: the frame socket of daemon/src/main.cpp. A
--   connection is the bytes that come before it ends or fails, and a function that says how many of
--   them each `read` gives; `read_exact` is ReadExact, on fuel, the bytes that are asked for, and
--   `handle_frame_client` is HandleFrameClient, on fuel, the bytes of the connection, while the daemon
--   is not asked to stop: a read gives at least one byte, and a round takes at least eight.
-- - Engine/Status: StatusJson and WaitForFirstFrameWritten of daemon/src/engine.cpp. What the threads
--   do while the latter waits is an argument of its caller.
-- - Control, Control/Waited, Control/Replies, Control/Safety: the control socket of daemon/src/main.cpp.
--   `handle_control_client` is HandleControlClient, with the reply as a value, `handle_start` and
--   `handle_stop` are the cases of its switch and `start_global_placeholder` is StartGlobalPlaceholder.
--   The texts of the errors are functions of the errors.
-- - FfmpegSource, FfmpegSource/Run and the files below them: FfmpegSource::Stream of
--   daemon/src/ffmpeg_source.cpp. `poll_loop` is its loop, on the list of what the rounds find, and
--   `stream` the whole function; `terminate_child` is TerminateChild and `drain_diagnostic` is
--   DrainDiagnostic. A result `none` says that a list is used up and the function goes on. The state of
--   the process is its open descriptors, its children and the signals that it has sent.
-- - SocketProxy, SocketProxy/Pipe, SocketProxy/Refines, SocketProxy/Ends, SocketProxy/Serve: the
--   relay of daemon/src/socket_proxy.cpp. `relay` and `serve` are Relay and Serve, on the list of what their
--   rounds and turns find; `Step` in SocketProxy/Pipe is the specification of one direction.
--
-- Each Tests file runs the definitions on concrete inputs and applies the theorems to them.
--
-- Not modelled: the listening sockets, the loops of accept, the drop of privileges and the start of
-- daemon/src/main.cpp; the listening sockets, the drop of privileges and the start of
-- daemon/src/socket_proxy.cpp. The write of a reply to the control socket is not modelled either: a
-- client that goes away changes nothing. The decoder and the encoder of stb_image are parameters.
-- Nor are modelled: the Android service of tools/aosp, the Java controller, the scripts and the
-- packaging tools.
pub mod Common
pub mod Failure
pub mod Arguments
pub mod Config
pub mod Control
pub mod Engine
pub mod FfmpegSource
pub mod FrameSocket
pub mod Image
pub mod Jpeg
pub mod Mjpeg
pub mod SocketProxy
pub mod Stream
pub mod V4l2Sink
pub mod Yuv
