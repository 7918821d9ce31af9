-- ===== src/Lib.antt =====
-- The firmware of a recorder of very low frequency signals, on a TI CC3220: an ADC fills DMA buffers, a
-- thread averages and packs the samples into messages, and a sender publishes the messages over MQTT on
-- Wi-Fi. The C files are in Core/.
--
-- The parts, and how they interact:
--   Samples: the packed format. `adc_value` to `pack_buffer` are the packing loop of
--   `thread_downsampling` in Core/dws_user.c, `unpack_right` and `unpack_left` the expressions of
--   `print_values_downsampled` in Core/print_user.c. Memory is a function from an index to a word;
--   arrays that are written are lists.
--   Printing: the text of `print_values_downsampled`.
--   Messages: the data message of Core/msg_structs.h; Messages.Wire: its bytes.
--   Downsampling: `thread_downsampling` of Core/dws_user.c. `iteration` is one round of its endless
--   loop and `rounds` any number of them, with the words that other threads share passed through
--   functions. Downsampling.Stamps follows the time stamp through the rounds.
--   Timing: `softtimer` of Core/empty.c and the rounds of Downsampling over the two words that they
--   share. How many seconds pass before each round is an argument.
--   Acquisition: the interrupt routine `isr_dma_done` of Core/empty.c, its set-up and the loop of
--   `mainThread`, over Core/udma_user.c and Core/adc_user.c; driver calls are recorded in order.
--   Interrupts is the handler table of Core/interrupt_user.c. Drivers holds the other functions of
--   the two driver files, and Channel the uDMA channel that the driver calls set up, with its two
--   control structures; Channel.Overrun reads it beside the rounds of Downsampling. Start has the
--   calls of `mainThread` that open, start and end the set-up of the drivers. Lag sets the buffers that are armed beside those that Downsampling reads:
--   the interrupt posts the semaphore that wakes a round.
--   Sending: `send_data` of Core/mqtt_user.c over the messages that Downsampling fills.
--   Sending.Transport is the interface of what takes its messages, a record of an operation and its
--   law; Sending.Transport.OverMqtt fills it with `mqtt_publish` over a connected session.
--   Pipeline: the threads of Downsampling and Sending over their messages and semaphores, as a step
--   relation, in any order. A round of the first and the two halves of a round of the second are
--   steps. Pipeline.Received joins it to Messages.Wire and to an instance of Sending.Transport.
--   Terminal: `GetCmd`, `TrimSpace` and `Report` of Core/uart_term.c, with the keys and the bytes
--   of the UART as lists; Terminal.Keys: `Message`, `ClearTerm`, `getch` and `putch`.
--   Watch: `softtimer` and `sntp_get_time` of Core/empty.c, and `test_wifi` of
--   Core/test_wifi_user.c over a list of the readings; Watch.Supervising: `test_wifi` over the
--   status word and the `wifi_connect` of Wifi.
--   Outage: the actions of `send_data`, `test_wifi` and the downsampling thread over
--   `send_data_status`, in any order, with the watchdog that `send_data` opens.
--   Mqtt.Topics: `MQTTHelperTopicMatching` of Core/mqtt_user.c.
--   Mqtt.Context: `mMQTTContext` of Core/mqtt_user.c with the heap of its topic nodes, as the state
--   of a monad whose results are a value, a fault, an endless loop of the source or the end of the
--   fuel.
--   Mqtt.Session: the `MQTT_IF_` functions; Mqtt.AppThread: `MQTTClientCallback` and one round of
--   `MQTTAppThread` for each kind of queue element. Both work on the topic list of Mqtt.Context and
--   ask Mqtt.Topics.
--   Mqtt.Device: `cmd_zero`, `mqtt_publish`, `mqtt_event_callback` and
--   `SetClientIdNamefromMacAddress`; publications go through Mqtt.Session. Mqtt.Commands:
--   `send_rssi` and `ask_for_id` with the bytes of their messages.
--   Mqtt.Client: `mqtt_init`, `mqtt_subscribe`, `mqtt_connect` with its wait, `mqtt_disconnect`,
--   `mqtt_client_connect`, `mqtt_client_disconnect` and the end of `MQTTContextThread`. What
--   `MQTTAppThread` handles while a function sleeps is an argument, and its callbacks act on the
--   device.
--   Mqtt.Runs: the operations of all threads over one context as a step relation, in any order.
--   Mqtt.Subscriptions: which subscription hears a message, which depends on the order of the topic
--   list, and whether one does, which is a function of its bag, the quotient of the lists by their
--   permutations.
--   Startup: `mainThread` of Core/empty.c from `mqtt_init` to `ask_for_id`; Startup.MainThread: all
--   of `mainThread` up to its final loop, over the parts that it starts; Startup.Threads: the
--   semaphores and the threads that it creates, and `main` of Core/main_tirtos.c.
--   Wifi: the status word and the event handlers of Core/wifi_user.c; Wifi.Driver: its routines,
--   where the events of each sleep of a waiting loop are an argument, with Driver.Starting for the
--   start of the network.
--   Examples: the theorems at concrete inputs.
--
-- Numbers are natural numbers with the wrap-around of their C type written out. What a driver, the
-- MQTT library, SimpleLink, `malloc` or `mq_send` answers is an argument, with a return code as an
-- integer. Fuel stands in for four loops over the topic list and for the topic matching: a fuel
-- above the length of the list, or of the filter, is enough, as the theorems show. It also stands in
-- for the loop of `test_wifi` that connects again, which in the source ends only when the connection
-- is back: a fuel above 0 is enough where the first `wifi_connect` brings it back. The other waiting
-- loops go by the events of their sleeps, and those of Terminal by the keys that come in and the
-- answers to `realloc`; `int` sizes there are taken to stay below 2 ^ 31. `decimal` has five
-- digits, enough for a uint16_t.
--
-- Not modelled: the writes behind the end of the local arrays of `mqtt_publish`, which have no effect
-- here; lines that are only printed, the opening of the display, the GPIO and the timer, a failing
-- watchdog driver, the GPIO and timer files, which only call the TI drivers, the generated
-- ti_net_SlNet_initConfig, the opening of the UART, the DNS lookup Network_IF_GetHostIP, the TI MQTT
-- client library in Core/mqttclient.c, and the MATLAB scripts. The operations of the MQTT module run
-- one after the other, as its mutex makes them; a thread that waits for the mutex is not modelled.
-- In Pipeline a round, a header and a publication each happen at one moment, so that a message
-- which is written while it is sent is not seen.
pub mod Common
pub mod Samples
pub mod Printing
pub mod Messages
pub mod Downsampling
pub mod Acquisition
pub mod Sending
pub mod Pipeline
pub mod Mqtt
pub mod Wifi
pub mod Startup
pub mod Terminal
pub mod Watch
pub mod Timing
pub mod Outage
pub mod Examples
