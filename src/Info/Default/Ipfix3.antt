-- ===== src/Info/Default/Ipfix3.antt =====
-- lib/InfoModel.cpp: a part of the table that InfoModel::defaultIPFIX adds, in its order.
use libfc.Prelude.{ℕ, List, [], ◌∷◌, codes}

abbrev pub ipfix_specs_3 : List (List ℕ)
ipfix_specs_3 =
    codes "informationElementId(303)<unsigned16>[2]"
    ∷ codes "selectorAlgorithm(304)<unsigned16>[2]"
    ∷ codes "samplingPacketInterval(305)<unsigned32>[4]"
    ∷ codes "samplingPacketSpace(306)<unsigned32>[4]"
    ∷ codes "samplingTimeInterval(307)<unsigned32>[4]"
    ∷ codes "samplingTimeSpace(308)<unsigned32>[4]"
    ∷ codes "samplingSize(309)<unsigned32>[4]"
    ∷ codes "samplingPopulation(310)<unsigned32>[4]"
    ∷ codes "samplingProbability(311)<float64>[8]"
    ∷ codes "dataLinkFrameSize(312)<unsigned16>[2]"
    ∷ codes "ipHeaderPacketSection(313)<octetArray>[65535]"
    ∷ codes "ipPayloadPacketSection(314)<octetArray>[65535]"
    ∷ codes "dataLinkFrameSection(315)<octetArray>[65535]"
    ∷ codes "mplsLabelStackSection(316)<octetArray>[65535]"
    ∷ codes "mplsPayloadPacketSection(317)<octetArray>[65535]"
    ∷ codes "selectorIdTotalPktsObserved(318)<unsigned64>[8]"
    ∷ codes "selectorIdTotalPktsSelected(319)<unsigned64>[8]"
    ∷ codes "absoluteError(320)<float64>[8]"
    ∷ codes "relativeError(321)<float64>[8]"
    ∷ codes "observationTimeSeconds(322)<dateTimeSeconds>[4]"
    ∷ codes "observationTimeMilliseconds(323)<dateTimeMilliseconds>"
    ∷ codes "observationTimeMicroseconds(324)<dateTimeMicroseconds>"
    ∷ codes "observationTimeNanoseconds(325)<dateTimeNanoseconds>"
    ∷ codes "digestHashValue(326)<unsigned64>[8]"
    ∷ codes "hashIPPayloadOffset(327)<unsigned64>[8]"
    ∷ codes "hashIPPayloadSize(328)<unsigned64>[8]"
    ∷ codes "hashOutputRangeMin(329)<unsigned64>[8]"
    ∷ codes "hashOutputRangeMax(330)<unsigned64>[8]"
    ∷ codes "hashSelectedRangeMin(331)<unsigned64>[8]"
    ∷ codes "hashSelectedRangeMax(332)<unsigned64>[8]"
    ∷ codes "hashDigestOutput(333)<boolean>[1]"
    ∷ codes "hashInitialiserValue(334)<unsigned64>[8]"
    ∷ codes "selectorName(335)<string>[65535]"
    ∷ codes "upperCILimit(336)<float64>[8]"
    ∷ codes "lowerCILimit(337)<float64>[8]"
    ∷ codes "confidenceLevel(338)<float64>[8]"
    ∷ codes "informationElementDataType(339)<unsigned8>[1]"
    ∷ codes "informationElementDescription(340)<string>[65535]"
    ∷ codes "informationElementName(341)<string>[65535]"
    ∷ codes "informationElementRangeBegin(342)<unsigned64>[8]"
    ∷ codes "informationElementRangeEnd(343)<unsigned64>[8]"
    ∷ codes "informationElementSemantics(344)<unsigned8>[1]"
    ∷ codes "informationElementUnits(345)<unsigned16>[2]"
    ∷ codes "privateEnterpriseNumber(346)<unsigned32>[4]"
    ∷ codes "virtualStationInterfaceId(347)<octetArray>[65535]"
    ∷ codes "virtualStationInterfaceName(348)<string>[65535]"
    ∷ codes "virtualStationUUID(349)<octetArray>[65535]"
    ∷ codes "virtualStationName(350)<string>[65535]"
    ∷ codes "layer2SegmentId(351)<unsigned64>[8]"
    ∷ codes "layer2OctetDeltaCount(352)<unsigned64>[8]"
    ∷ codes "layer2OctetTotalCount(353)<unsigned64>[8]"
    ∷ codes "ingressUnicastPacketTotalCount(354)<unsigned64>[8]"
    ∷ codes "ingressMulticastPacketTotalCount(355)<unsigned64>[8]"
    ∷ codes "ingressBroadcastPacketTotalCount(356)<unsigned64>[8]"
    ∷ codes "egressUnicastPacketTotalCount(357)<unsigned64>[8]"
    ∷ codes "egressBroadcastPacketTotalCount(358)<unsigned64>[8]"
    ∷ codes "monitoringIntervalStartMilliSeconds(359)<dateTimeMilliseconds>[8]"
    ∷ codes "monitoringIntervalEndMilliSeconds(360)<dateTimeMilliseconds>[8]"
    ∷ codes "portRangeStart(361)<unsigned16>[2]"
    ∷ codes "portRangeEnd(362)<unsigned16>[2]"
    ∷ codes "portRangeStepSize(363)<unsigned16>[2]"
    ∷ codes "portRangeNumPorts(364)<unsigned16>[2]"
    ∷ codes "staMacAddress(365)<macAddress>[6]"
    ∷ codes "staIPv4Address(366)<ipv4Address>[4]"
    ∷ codes "wtpMacAddress(367)<macAddress>[6]"
    ∷ codes "ingressInterfaceType(368)<unsigned32>[4]"
    ∷ codes "egressInterfaceType(369)<unsigned32>[4]"
    ∷ codes "rtpSequenceNumber(370)<unsigned16>[2]"
    ∷ codes "userName(371)<string>[65535]"
    ∷ codes "applicationCategoryName(372)<string>[65535]"
    ∷ codes "applicationSubCategoryName(373)<string>[65535]"
    ∷ codes "applicationGroupName(374)<string>[65535]"
    ∷ codes "originalFlowsPresent(375)<unsigned64>[8]"
    ∷ codes "originalFlowsInitiated(376)<unsigned64>[8]"
    ∷ codes "originalFlowsCompleted(377)<unsigned64>[8]"
    ∷ codes "distinctCountOfSourceIPAddress(378)<unsigned64>[8]"
    ∷ codes "distinctCountOfDestinationIPAddress(379)<unsigned64>[8]"
    ∷ codes "distinctCountOfSourceIPv4Address(380)<unsigned32>[4]"
    ∷ codes "distinctCountOfDestinationIPv4Address(381)<unsigned32>[4]"
    ∷ codes "distinctCountOfSourceIPv6Address(382)<unsigned64>[8]"
    ∷ codes "distinctCountOfDestinationIPv6Address(383)<unsigned64>[8]"
    ∷ codes "valueDistributionMethod(384)<unsigned8>[1]"
    ∷ codes "rfc3550JitterMilliseconds(385)<unsigned32>[4]"
    ∷ codes "rfc3550JitterMicroseconds(386)<unsigned32>[4]"
    ∷ codes "rfc3550JitterNanoseconds(387)<unsigned32>[4]"
    ∷ codes "dot1qDEI(388)<boolean>[1]"
    ∷ codes "dot1qCustomerDEI(389)<boolean>[1]"
    ∷ codes "flowSelectorAlgorithm(390)<unsigned16>"
    ∷ codes "flowSelectedOctetDeltaCount(391)<unsigned64>"
    ∷ codes "flowSelectedPacketDeltaCount(392)<unsigned64>"
    ∷ codes "flowSelectedFlowDeltaCount(393)<unsigned64>"
    ∷ codes "selectorIDTotalFlowsObserved(394)<unsigned64>"
    ∷ codes "selectorIDTotalFlowsSelected(395)<unsigned64>"
    ∷ codes "samplingFlowInterval(396)<unsigned64>"
    ∷ codes "samplingFlowSpacing(397)<unsigned64>"
    ∷ codes "flowSamplingTimeInterval(398)<unsigned64>"
    ∷ codes "flowSamplingTimeSpacing(399)<unsigned64>"
    ∷ codes "hashFlowDomain(400)<unsigned16>"
    ∷ codes "transportOctetDeltaCount(401)<unsigned64>"
    ∷ codes "transportPacketDeltaCount(402)<unsigned64>"
    ∷ codes "originalExporterIPv4Address(403)<ipv4Address>"
    ∷ codes "originalExporterIPv6Address(404)<ipv6Address>"
    ∷ codes "originalObservationDomainId(405)<unsigned32>"
    ∷ codes "intermediateProcessId(406)<unsigned32>"
    ∷ codes "ignoredDataRecordTotalCount(407)<unsigned64>"
    ∷ codes "dataLinkFrameType(408)<unsigned16>"
    ∷ codes "sectionOffset(409)<unsigned16>"
    ∷ codes "sectionExportedOctets(410)<unsigned16>"
    ∷ codes "dot1qServiceInstanceTag(411)<octetArray>"
    ∷ codes "dot1qServiceInstanceId(412)<unsigned32>"
    ∷ codes "dot1qServiceInstancePriority(413)<unsigned8>"
    ∷ codes "dot1qCustomerSourceMacAddress(414)<macAddress>"
    ∷ codes "dot1qCustomerDestinationMacAddress(415)<macAddress>"
    ∷ codes "l2OctetDeltaCount(416)<unsigned64>"
    ∷ codes "postL2OctetDeltaCount(417)<unsigned64>"
    ∷ codes "postMCastL2OctetDeltaCount(418)<unsigned64>"
    ∷ codes "l2OctetTotalCount(419)<unsigned64>"
    ∷ codes "postL2OctetTotalCount(420)<unsigned64>"
    ∷ codes "postMCastL2OctetTotalCount(421)<unsigned64>"
    ∷ codes "minimumL2TotalLength(422)<unsigned64>"
    ∷ codes "maximumL2TotalLength(423)<unsigned64>"
    ∷ codes "droppedL2OctetDeltaCount(424)<unsigned64>"
    ∷ codes "droppedL2OctetTotalCount(425)<unsigned64>"
    ∷ codes "ignoredL2OctetTotalCount(426)<unsigned64>"
    ∷ codes "notSentL2OctetTotalCount(427)<unsigned64>"
    ∷ codes "l2OctetDeltaSumOfSquares(428)<unsigned64>"
    ∷ codes "l2OctetTotalSumOfSquares(429)<unsigned64>"
    ∷ []
