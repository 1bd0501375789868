-- ===== src/Lib.antt =====
-- The mine truck signal gateway of OKMX8MM-Demo3: three processors that pass a sample on.
--
-- An STM32F407 acquires ten analog values, digital inputs and a speed. It answers Modbus requests
-- over RS485 and can put a sample on a CAN bus. The Cortex-M4 core of the i.MX8MM is the Modbus
-- master: its gateway reads the registers and publishes the sample as an RPMsg frame. On the A53
-- cores the collector reads the frames and hands each sample to the storages, CAN and MQTT.
--
-- The files and the code (in OKMX8MM-Demo3/ unless the path says otherwise):
--   Crc         crc16_modbus in common/protocol/demo3_protocol.c and the table-driven crc16_digest
--               in data-collector-demo3/src/crc/crc-16.c
--   Wire        put_u16_le, read_u32_le and the like, which several files repeat
--   Sample      demo3_sample_t and its Modbus registers: common/protocol/demo3_protocol.c
--   Rpmsg       demo3_m4_rpmsg_publish in okmx8mm-m4/src/rpmsg/, and the decoder, the bridge and
--               the reader in data-collector-demo3/src/bridge/
--   Modbus      the slave in stm32f407/applications/rs485/ and the master and the gateway in
--               okmx8mm-m4/src/
--   Can         the CAN frames of data-collector-demo3/src/can/ and of stm32f407/applications/can/
--   Mqtt        the packets and the send loop of data-collector-demo3/src/mqtt/demo3_mqtt_linux.c
--   Runtime     the counters, the JSON strings and the writing of the status file:
--               data-collector-demo3/src/runtime/demo3_runtime_status.c
--   Files       the calls of stdio that replace a file, as an interface with what they are
--               documented to do
--   Ota         the staging of updates: data-collector-demo3/src/ota/demo3_ota.c
--   Config      the defaults and the parser of the configuration file:
--               data-collector-demo3/src/config/demo3_config.c
--   Public      the public train information: data-collector-demo3/src/public/
--   Led         the thread of the LEDs: data-collector-demo3/src/led/led.c
--   Acquisition the sample of the STM32F407: stm32f407/applications/acquisition/, the readers of
--               stm32f407/Bsp/demo3_stm32f407_board.c and the loop of stm32f407/Core/Src/main.c
--   Executor    the queue of SQL statements, its consumer and their start:
--               data-collector-demo3/src/mysql-executor/mysql-executor.c
--   Rtu         the Modbus master of the collector: the exchange and the collection of a sample
--               in data-collector-demo3/src/modbus-rtu/modbus-rtu.c
--   Service     the launch of the collector and its thread:
--               data-collector-demo3/src/bridge/demo3_rpmsg_service.c
--   Demo1       the batch engine, its sources and the RS485 transport of the earlier M4 demo:
--               OKMX8MM-Demo2/m4/demo1/src/ (OKMX8MM-M4-demo1/demo1 is a copy)
--   Rolling     the rolling of the storage files:
--               data-collector-demo3/src/file-storage/file-storage.c
--   A53         the offline demo of the A53 cores: OKMX8MM-Demo2/a53/src/ (OKMX8MM-A53-demo is an
--               earlier copy). Append, Cursor and Check have storage_writer.c, Outputs the other
--               files that are written, Source the replay and the reader of files, Pipeline the run
-- Base holds the shared helpers, Tests the runs at concrete inputs.
--
-- How the code is modelled. A function that fills an output and returns 0 gives `ok`; one that
-- returns -n gives `err n`. A null pointer is `none`, or a Boolean argument that says whether the
-- pointers are given. Integers are natural numbers below 2 ^ 8, 2 ^ 16 or 2 ^ 32, with the
-- wrap-around written out; signed fields are kept as their bit patterns, as the frames carry them.
-- Devices, buses, sockets and files are functions over a state of their own, so a theorem about
-- them holds for each behaviour they can show. The offline demo works on a disk that says what each
-- path holds, and whether each call of the C library succeeds, and how much of a text reaches the
-- file when one fails, are arguments. Loops over arrays are structural recursion over the
-- rounds left, so no fuel is needed; an endless loop is followed for any number of rounds. These
-- loops run on fuel: that of the RS485 transport, which ends by the clock, where two rounds more
-- than the time limit counts microseconds are enough; that of send_all, where one round
-- more than there are bytes and interruptions is; and those of the collector's Modbus master,
-- where two rounds and one for each piece of the response are; that of the rolling, where two
-- rounds more than the limit of free bytes are; and the search of the LED thread,
-- where nine steps are if it ends at all. Critical sections under a mutex are
-- single steps, and what other threads do while a thread waits is an argument.
--
-- Not modelled: the initialisation of the boards, the scheduling of threads, the file system,
-- MySQL, the copy of libsocketcan, the glue of the base collector, the texts of SQL statements, and
-- these parts of the program's own logic: the schedule of the collector's Modbus devices, the
-- text of the MQTT payload, the RPMsg device of the A53 cores, the write and the compression of
-- the storage files, and the command line of the offline demo.
mod Base
pub mod Crc
pub mod Wire
pub mod Sample
pub mod Rpmsg
pub mod Modbus
pub mod Can
pub mod Demo1
pub mod Mqtt
pub mod Runtime
pub mod Config
pub mod Files
pub mod Ota
pub mod A53
pub mod Rolling
pub mod Public
pub mod Led
pub mod Acquisition
pub mod Executor
pub mod Rtu
pub mod Service
mod Tests
